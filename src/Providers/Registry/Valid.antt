-- ===== src/Providers/Registry/Valid.antt =====
-- The registry's invariant, and which credentials a resolution can give.
use rkgw.Base.{
  ◌∙◌, All, All-imp, ℕ, String, false, List, [], ap, ◌∷◌, Option, some, arith, ◌≡◌, ◌≢◌, ◌⊎◌, inl,
  inr, refl, ltb, Bool-cases, Option-cases, string_eq, nat_eq,
}
use text.Mathlib.TextEquality.{eq_iff}
use rkgw.Base.Maps.{Map, lookup, insert, remove, lookup-insert, lookup-remove}
use rkgw.Base.Sets.{contains, not_contains}
use rkgw.Providers.Id.{
  ProviderId, anthropic, open_ai_codex, copilot, all_visible, provider_eq, as_str, from_str,
  from_str-as_str,
}
use rkgw.Providers.Registry.{ProviderCredentials, ProviderRegistry, TokenRow, CopilotRow, Db}
use rkgw.Providers.Registry.Resolve.{
  UserData, remove_disabled, add_token, add_copilot, no_user_data, load_token, load_tokens,
  copilot_creds, load_user_data,
}

-- Each credential stands under its own provider's name, and that provider is enabled.
abbrev pub IsClean : List ProviderId → Map String ProviderCredentials → Type 0
IsClean disabled creds =
    (name : String) (c : ProviderCredentials)
    → lookup name creds ≡ some c
    → (as_str c.provider ≡ name) × (contains disabled c.provider ≡ false)

pub as_str-injective : (p q : ProviderId) → as_str p ≡ as_str q → p ≡ q
as_str-injective p q e = ground (arith, from_str-as_str p, from_str-as_str q, ap from_str e)

lookup-remove_disabled :
    (disabled : List ProviderId) (creds : Map String ProviderCredentials) (name : String)
    {c : ProviderCredentials}
    → lookup name (remove_disabled disabled creds) ≡ some c
    → (lookup name creds ≡ some c) × All (λ d. as_str d ≢ name) disabled
unfolding remove_disabled
lookup-remove_disabled [] creds name e = (e, tt)
lookup-remove_disabled (d ∷ disabled) creds name e =
    let (found, others) = lookup-remove_disabled disabled (remove (as_str d) creds) name e in
    ground (arith, found, others, lookup-remove (as_str d) name creds, eq_iff (as_str d) name)

-- What is left of clean credentials after the disabled providers' are taken out.
pub remove_disabled-IsClean :
    (disabled : List ProviderId) (creds : Map String ProviderCredentials)
    → IsClean [] creds
    → IsClean disabled (remove_disabled disabled creds)
remove_disabled-IsClean disabled creds h name c e =
    let (found, others) = lookup-remove_disabled disabled creds name e in
    let (named, _) = h name c found in
    (
      named,
      not_contains disabled c.provider
          (All-imp disabled (λ d o same. o (ap as_str same ∙ named)) others),
    )

insert-IsClean :
    (disabled : List ProviderId) (creds : Map String ProviderCredentials) (name : String)
    (c : ProviderCredentials)
    → IsClean disabled creds
    → as_str c.provider ≡ name
    → contains disabled c.provider ≡ false
    → IsClean disabled (insert name c creds)
insert-IsClean disabled creds name c h named enabled key d e =
    ground (arith, lookup-insert name key c creds, eq_iff name key, h key d)

-- A usable Copilot row gives Copilot's credentials, and has not expired.
pub copilot_creds_lem :
    (row : Option CopilotRow) (now : ℕ) {creds : ProviderCredentials} {expires_at : ℕ}
    → copilot_creds row now ≡ some (creds, expires_at)
    → creds.provider ≡ copilot
unfolding copilot_creds
copilot_creds_lem row now e = ground arith

empty_lookup : (name : String) {c : ProviderCredentials} → lookup name [] ≡ some c → ⊥
unfolding lookup
empty_lookup name e = cc

add_token-IsClean :
    (disabled : List ProviderId) (pid : ProviderId) (row : TokenRow) (u : UserData)
    → contains disabled pid ≡ false
    → IsClean disabled u.credentials
    → IsClean disabled (add_token pid row u).credentials
unfolding add_token as_str
add_token-IsClean disabled anthropic row u on h =
    insert-IsClean disabled u.credentials "anthropic" _ h refl on
add_token-IsClean disabled open_ai_codex row u on h =
    insert-IsClean disabled u.credentials "openai_codex" _ h refl on
add_token-IsClean disabled _ row u on h = h

module _ (disabled : List ProviderId) (user_id : ℕ) (db : Db) (now : ℕ) where
  load_token_cases :
      (pid : ProviderId) (u : UserData)
      → (load_token disabled user_id db now pid u ≡ u)
        ⊎ ((row : TokenRow) × (contains disabled pid ≡ false)
            × (load_token disabled user_id db now pid u ≡ add_token pid row u))
  unfolding load_token
  load_token_cases pid u = elim (Option-cases (db.get_user_provider_token user_id (as_str pid))) [
    | inl e ↦ inl (ground arith)
    | inr (row, e) ↦ elim (Bool-cases (contains disabled pid)) [
      | inl off ↦ inl (rw off refl)
      | inr on ↦ elim (Bool-cases (ltb now row.expires_at)) [
        | inl live ↦ inr (row, on, rw (on, e, live) refl)
        | inr old ↦ inl (rw (on, e, old) refl)
      ]
    ]
  ]

  load_token-IsClean :
      (pid : ProviderId) (u : UserData)
      → IsClean disabled u.credentials
      → IsClean disabled (load_token disabled user_id db now pid u).credentials
  load_token-IsClean pid u h = elim (load_token_cases pid u) [
    | inl e ↦ rw e h
    | inr (row, on, e) ↦ rw e (add_token-IsClean disabled pid row u on h)
  ]

  load_tokens-IsClean :
      (pids : List ProviderId) (u : UserData)
      → IsClean disabled u.credentials
      → IsClean disabled (load_tokens disabled user_id db now pids u).credentials
  unfolding load_tokens
  load_tokens-IsClean [] u h = h
  load_tokens-IsClean (pid ∷ pids) u h = load_tokens-IsClean pids _ (load_token-IsClean pid u h)

  add_copilot-IsClean :
      (u : UserData)
      → contains disabled copilot ≡ false
      → IsClean disabled u.credentials
      → IsClean disabled
          (add_copilot (copilot_creds (db.get_copilot_tokens user_id) now) u).credentials
  unfolding add_copilot
  add_copilot-IsClean u on h =
      elim (Option-cases (copilot_creds (db.get_copilot_tokens user_id) now)) [
        | inl e ↦ rw e h
        | inr ((creds, expires_at), e) ↦
            let is_copilot = copilot_creds_lem (db.get_copilot_tokens user_id) now e in
            rw e (
              insert-IsClean disabled u.credentials "copilot" creds h
                (rw is_copilot (unfold as_str in refl)) (rw is_copilot on))
      ]

pub load_user_data-IsClean :
    (r : ProviderRegistry) (user_id : ℕ) (db : Db) (now : ℕ)
    → IsClean r.disabled_providers (load_user_data r user_id db now).0.credentials
unfolding load_user_data
load_user_data-IsClean r user_id db now =
    let disabled = r.disabled_providers in
    let loaded =
      load_tokens-IsClean disabled user_id db now all_visible no_user_data
        (λ name c e. absurd (empty_lookup name e)) in
    elim (Bool-cases (contains disabled copilot)) [
      | inl off ↦ rw off loaded
      | inr on ↦ rw on (add_copilot-IsClean disabled user_id db now _ on loaded)
    ]
