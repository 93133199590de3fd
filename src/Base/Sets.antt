-- ===== src/Base/Sets.antt =====
-- A hash set as a list, in no promised order.
use mathlib.Core.Path.{◌≡◌, refl}
use mathlib.Core.Bool.{Bool, true, false}
use mathlib.Core.Logic.{◌≢◌}
use mathlib.Core.List.{List, [], ◌∷◌}
use native.Mathlib.Omega.{arith}
use rkgw.Base.Tests.{Eq, ◌==◌, if◌then◌else◌}
use rkgw.Base.Lists.{any, All}

module _ {ℓ} {A : Type ℓ} ⦃e : Eq A⦄ where
  unfoldable pub contains : List A → A → Bool
  contains set a = any (λ b. b == a) set

  -- `HashSet::remove`
  unfoldable pub without : A → List A → List A
  without a [] = []
  without a (b ∷ set) = let rest = without a set in if b == a then rest else b ∷ rest

  -- `HashSet::insert`
  unfoldable pub with : A → List A → List A
  unfolding without
  with a set = a ∷ without a set

  pub not_contains : (set : List A) (a : A) → All (λ b. b ≢ a) set → contains set a ≡ false
  unfolding contains
  not_contains [] a h = refl
  not_contains (b ∷ set) a h = ground (arith, h.0, e.beq_iff b a, not_contains set a h.1)

  pub contains-without :
      (a b : A) (set : List A)
      → contains (without a set) b ≡ (if a == b then false else contains set b)
  unfolding contains without
  contains-without a b [] = ground arith
  contains-without a b (c ∷ set) =
      ground (arith, contains-without a b set, e.beq_iff c a, e.beq_iff c b, e.beq_iff a b)

  pub contains-with :
      (a b : A) (set : List A) → contains (with a set) b ≡ (if a == b then true else contains set b)
  unfolding contains with
  contains-with a b set = ground (arith, contains-without a b set)
