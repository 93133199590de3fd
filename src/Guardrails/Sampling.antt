-- ===== src/Guardrails/Sampling.antt =====
-- How many of the random bytes let a rule run.
use rkgw.Base.{
  ℕ, zero, suc, ◌+◌, ◌*◌, ◌%◌, ◌≤◌, ◌<◌, min, Bool, true, false, if◌then◌else◌, ◌≡◌, inl, inr, refl,
  ap, sym, subst, ◌∙◌, Bool-cases, arith, ltb, ltb→lt,
}
use rkgw.Base.Int.{pos}
use rkgw.Guardrails.{is_sampled}

-- Of the n bytes from `start` on, those that are sampled.
unfoldable pub sampled : ℕ → ℕ → ℕ → ℕ
unfolding is_sampled
sampled r start zero = 0
sampled r start (suc n) =
    let rest = sampled r start n in if is_sampled (pos r) (start + n) then suc rest else rest

is_sampled_roll : (r b : ℕ) → r < 100 → is_sampled (pos r) b ≡ ltb (b % 100) r
unfolding is_sampled
is_sampled_roll r b h = ground arith

sampled-suc :
    (r start n : ℕ)
    → r < 100
    → sampled r start (suc n)
      ≡ (if ltb ((start + n) % 100) r then suc (sampled r start n) else sampled r start n)
unfolding sampled
sampled-suc r start n h = rw (is_sampled_roll r (start + n) h) refl

sampled-zero : (r start : ℕ) → sampled r start 0 ≡ 0
unfolding sampled
sampled-zero r start = refl

sampled-append :
    (r start m n : ℕ)
    → r < 100
    → sampled r start (m + n) ≡ sampled r start m + sampled r (start + m) n
sampled-append r start m zero h =
    let same : m + 0 ≡ m = omega arith in
    ap (sampled r start) same ∙ omega (arith, sampled-zero r (start + m))
sampled-append r start m (suc n) h =
    let longer : m + suc n ≡ suc (m + n) = omega arith in
    let further : start + (m + n) ≡ start + m + n = omega arith in
    ap (sampled r start) longer
    ∙ sampled-suc r start (m + n) h
    ∙ ap (λ x. if ltb (x % 100) r then suc (sampled r start (m + n)) else sampled r start (m + n))
        further
    ∙ counted (ltb ((start + m + n) % 100) r) (sampled-append r start m n h)
    ∙ ap (λ x. sampled r start m + x) (sym (sampled-suc r (start + m) n h))
  where
    counted :
        (b : Bool)
        → sampled r start (m + n) ≡ sampled r start m + sampled r (start + m) n
        → (if b then suc (sampled r start (m + n)) else sampled r start (m + n))
          ≡ sampled r start m
            + (if b then suc (sampled r (start + m) n) else sampled r (start + m) n)
    counted true e = omega (arith, e)
    counted false e = e

sampled-block : (r q n : ℕ) → r < 100 → n ≤ 100 → sampled r (100 * q) n ≡ min n r
sampled-block r q zero h k = omega (arith, sampled-zero r (100 * q))
sampled-block r q (suc n) h k =
    let rolled : (100 * q + n) % 100 ≡ n = omega arith in
    sampled-suc r (100 * q) n h ∙ rw (rolled, sampled-block r q n h (omega arith)) (ground arith)

all_sampled : (start n : ℕ) → sampled 100 start n ≡ n
unfolding sampled
all_sampled start zero = refl
all_sampled start (suc n) = ap suc (all_sampled start n)

-- Of the 256 bytes that the roll of a rule with the rate r may come from, min (3 r) (2 r + 56) let the rule
-- run. That is more than r in 100, unless r is 0 or 100.
pub sampled-min :
    (r : ℕ)
    → r ≤ 100
    → (sampled r 0 256 ≡ min (3 * r) (2 * r + 56)) × (256 * r ≤ 100 * sampled r 0 256)
sampled-min r h = (counts r h, omega (arith, counts r h))
  where
    counts : (r : ℕ) → r ≤ 100 → sampled r 0 256 ≡ min (3 * r) (2 * r + 56)
    counts r h = elim (Bool-cases (ltb r 100)) [
      | inl below ↦
          let small = ltb→lt r 100 below in
          omega (
            arith,
            sampled-append r 0 100 156 small,
            sampled-append r 100 100 56 small,
            sampled-block r 0 100 small (omega arith),
            sampled-block r 1 100 small (omega arith),
            sampled-block r 2 56 small (omega arith),
          )
      | inr above ↦
          let top : r ≡ 100 = ground arith in
          subst (λ x. sampled x 0 256 ≡ min (3 * x) (2 * x + 56)) (sym top) (all_sampled 0 256)
    ]
