-- ===== src/Providers/TokenManager/Credentials.antt =====
-- The live credentials against the token file, and what the registry keeps under the operations.
use rkgw.Base.{
  ℕ, String, Bool, true, false, List, [], ◌∷◌, Option, none, some, ltb, if◌then◌else◌, ◌==◌, ◌≡◌,
  inl, inr, refl, ap, sym, ◌∙◌, Bool-cases, Option-cases,
}
use rkgw.Base.Int.{ℤ, ltb_ℤ}
use rkgw.Base.Maps.{Map, lookup, lookup-insert, lookup-insert_cases, lookup-remove}
use rkgw.Providers.Id.{
  ProviderId, kiro, anthropic, open_ai_codex, copilot, huawei_maas, provider_eq,
}
use rkgw.Providers.Registry.{ProviderCredentials, ProviderRegistry}
use rkgw.Providers.Registry.Enabled.{IsValid}
use rkgw.Providers.TokenManager.{
  OAuthTokenEntry, CopilotTokenEntry, TokenFile, ProxyTokenManager, TokenResult, CopilotSession,
  read_token_file, credentials_of, put_credentials, update_oauth, update_copilot,
  update_credentials_from_tokens, write_and_update, with_file, store_oauth_tokens,
  store_copilot_tokens, load_from_file, refresh_file, refresh_expiring_tokens,
}

abbrev pub AreOwn : Map ProviderId ProviderCredentials → Type 0
AreOwn m = (p : ProviderId) (c : ProviderCredentials) → lookup p m ≡ some c → c.provider ≡ p

put_credentials-AreOwn :
    (m : Map ProviderId ProviderCredentials) (p : ProviderId) (live : Bool)
    (c : ProviderCredentials)
    → c.provider ≡ p
    → AreOwn m
    → AreOwn (put_credentials m p live c)
put_credentials-AreOwn m p true c own h q d found = elim (lookup-insert_cases p q c m found) [
  | inl (same, here) ↦ ap (λ (x : ProviderCredentials). x.provider) here ∙ own ∙ sym same
  | inr before ↦ h q d before
]
put_credentials-AreOwn m p false c own h q d found = elim (Bool-cases (p == q)) [
  | inl e ↦ absurd (cc (rw e at (sym (lookup-remove p q m) ∙ found)))
  | inr e ↦ h q d (rw e at (sym (lookup-remove p q m) ∙ found))
]

update_credentials_from_tokens-AreOwn :
    (now : ℤ) (file : TokenFile) (m : Map ProviderId ProviderCredentials)
    → AreOwn m
    → AreOwn (update_credentials_from_tokens now file m)
unfolding update_credentials_from_tokens update_oauth update_copilot
update_credentials_from_tokens-AreOwn now file m h =
    copilots file.copilot_entry _
      (oauths open_ai_codex file.openai_entry _ (oauths anthropic file.anthropic_entry m h))
  where
    oauths :
        (p : ProviderId) (o : Option OAuthTokenEntry) (m : Map ProviderId ProviderCredentials)
        → AreOwn m
        → AreOwn (update_oauth now p o m)
    oauths p none m h = h
    oauths p (some entry) m h =
        put_credentials-AreOwn m p (ltb_ℤ now entry.expires_at)
          (credentials_of p entry.access_token none) refl h

    copilots :
        (o : Option CopilotTokenEntry) (m : Map ProviderId ProviderCredentials)
        → AreOwn m
        → AreOwn (update_copilot now o m)
    copilots none m h = h
    copilots (some entry) m h =
        put_credentials-AreOwn m copilot (ltb_ℤ now entry.expires_at)
          (credentials_of copilot entry.session_token (some entry.base_url)) refl h

write_and_update-AreOwn :
    (write_fails : Bool) (now : ℤ) (file : TokenFile) (m : ProxyTokenManager)
    → AreOwn m.credentials
    → AreOwn (write_and_update write_fails now file m).0.credentials
unfolding write_and_update
write_and_update-AreOwn true now file m h = h
write_and_update-AreOwn false now file m h =
    update_credentials_from_tokens-AreOwn now file m.credentials h

with_file-AreOwn :
    (m : ProxyTokenManager) (o : Option TokenFile) (f : TokenFile → ProxyTokenManager × Bool)
    → ((file : TokenFile) → AreOwn (f file).0.credentials)
    → AreOwn m.credentials
    → AreOwn (with_file m o f).0.credentials
with_file-AreOwn m none f each h = h
with_file-AreOwn m (some file) f each h = each file

-- The calls that the rest of the gateway makes, each with its reading of the clock and the fate of its write.
pub data Operation : Type 0 where
  store_oauth :
      (write_fails : Bool) (now : ℤ) (provider access_token refresh_token : String) (expires_in : ℤ)
      → Operation
  store_copilot : (write_fails : Bool) (now : ℤ) → CopilotTokenEntry → Operation
  load : (now : ℤ) → Operation
  refresh_all : (write_fails : Bool) (now : ℤ) → Operation

module _ (refresh : String → String → Option TokenResult)
    (session : String → Option CopilotSession) where
  unfoldable pub perform : Operation → ProxyTokenManager → ProxyTokenManager
  unfolding store_oauth_tokens store_copilot_tokens load_from_file refresh_expiring_tokens
  perform (store_oauth write_fails now provider access_token refresh_token expires_in) m =
      (store_oauth_tokens write_fails now provider access_token refresh_token expires_in m).0
  perform (store_copilot write_fails now entry) m = (store_copilot_tokens write_fails now entry m).0
  perform (load now) m = (load_from_file now m).0
  perform (refresh_all write_fails now) m =
      (refresh_expiring_tokens refresh session write_fails now m).0

  unfoldable pub perform_all : List Operation → ProxyTokenManager → ProxyTokenManager
  unfolding perform
  perform_all [] m = m
  perform_all (op ∷ ops) m = perform_all ops (perform op m)

  refresh_expiring_tokens-AreOwn :
      (write_fails : Bool) (now : ℤ) (m : ProxyTokenManager)
      → AreOwn m.credentials
      → AreOwn (refresh_expiring_tokens refresh session write_fails now m).0.credentials
  unfolding refresh_expiring_tokens
  refresh_expiring_tokens-AreOwn write_fails now m h =
      elim (Option-cases (read_token_file m.token_file)) [
        | inl e ↦ rw (e, refresh_expiring_tokens) h
        | inr (file, e) ↦
            let (next, refreshed) = refresh_file refresh session now file in
            let (written, done) = write_and_update write_fails now next m in
            rw (e, refresh_expiring_tokens)
              (refreshed_or_not written (if done then some refreshed else none) (ltb 0 refreshed)
                (write_and_update-AreOwn write_fails now next m h))
      ]
    where
      refreshed_or_not :
          (written : ProxyTokenManager) (x : Option ℕ) (b : Bool)
          → AreOwn written.credentials
          → AreOwn
              (if◌then◌else◌ {A = ProxyTokenManager × Option ℕ} b
                (written, x)
                (m, some 0)).0.credentials
      refreshed_or_not written x true k = k
      refreshed_or_not written x false k = h

  perform-AreOwn :
      (op : Operation) (m : ProxyTokenManager)
      → AreOwn m.credentials
      → AreOwn (perform op m).credentials
  unfolding perform store_oauth_tokens store_copilot_tokens load_from_file
  perform-AreOwn (store_oauth write_fails now provider access_token refresh_token expires_in) m h =
      with_file-AreOwn m _ _ (λ file. write_and_update-AreOwn write_fails now file m h) h
  perform-AreOwn (store_copilot write_fails now entry) m h =
      with_file-AreOwn m (read_token_file m.token_file) _
        (λ file.
          write_and_update-AreOwn write_fails now (record file { copilot_entry = some entry }) m h)
        h
  perform-AreOwn (load now) m h =
      with_file-AreOwn m (read_token_file m.token_file) _
        (λ file. update_credentials_from_tokens-AreOwn now file m.credentials h) h
  perform-AreOwn (refresh_all write_fails now) m h =
      refresh_expiring_tokens-AreOwn write_fails now m h

  perform_all-AreOwn :
      (ops : List Operation) (m : ProxyTokenManager)
      → AreOwn m.credentials
      → AreOwn (perform_all ops m).credentials
  unfolding perform_all
  perform_all-AreOwn [] m h = h
  perform_all-AreOwn (op ∷ ops) m h = perform_all-AreOwn ops (perform op m) (perform-AreOwn op m h)

  -- The registry that shares the live credentials stays valid, whatever the token manager does: after any
  -- operations, failed reads, writes and refreshes too, each proxy credential stands under its provider.
  pub perform_all-IsValid :
      (ops : List Operation) (m : ProxyTokenManager) (r : ProviderRegistry)
      → IsValid (record r { proxy_credentials = m.credentials })
      → IsValid (record r { proxy_credentials = (perform_all ops m).credentials })
  perform_all-IsValid ops m r valid = record {
    cached = valid.cached;
    proxied = perform_all-AreOwn ops m valid.proxied;
    kiro_enabled = valid.kiro_enabled;
  }

-- The live credentials of a provider, as an entry of the file says.
abbrev pub live : ℤ → ℤ → ProviderCredentials → Option ProviderCredentials
live now expires_at c = if ltb_ℤ now expires_at then some c else none

abbrev pub expected :
    ℤ → TokenFile → Map ProviderId ProviderCredentials → ProviderId → Option ProviderCredentials
expected now file m anthropic = elim file.anthropic_entry [
  | none ↦ lookup anthropic m
  | some entry ↦ live now entry.expires_at (credentials_of anthropic entry.access_token none)
]
expected now file m open_ai_codex = elim file.openai_entry [
  | none ↦ lookup open_ai_codex m
  | some entry ↦ live now entry.expires_at (credentials_of open_ai_codex entry.access_token none)
]
expected now file m copilot = elim file.copilot_entry [
  | none ↦ lookup copilot m
  | some entry ↦
      live now entry.expires_at (credentials_of copilot entry.session_token (some entry.base_url))
]
expected now file m kiro = lookup kiro m
expected now file m huawei_maas = lookup huawei_maas m

put_credentials-lookup :
    (m : Map ProviderId ProviderCredentials) (p q : ProviderId) (b : Bool) (c : ProviderCredentials)
    → lookup q (put_credentials m p b c)
      ≡ (if p == q then (if b then some c else none) else lookup q m)
put_credentials-lookup m p q true c = lookup-insert p q c m
put_credentials-lookup m p q false c = lookup-remove p q m

update_oauth-lookup :
    (now : ℤ) (p q : ProviderId) (o : Option OAuthTokenEntry)
    (m : Map ProviderId ProviderCredentials)
    → lookup q (update_oauth now p o m) ≡ (
        if p == q
        then (elim o as (λ _. Option ProviderCredentials) [
          | none ↦ lookup q m
          | some entry ↦ live now entry.expires_at (credentials_of p entry.access_token none)
        ])
        else lookup q m)
unfolding update_oauth
update_oauth-lookup now p q none m = elim (Bool-cases (p == q)) [
  | inl e ↦ rw e refl
  | inr e ↦ rw e refl
]
update_oauth-lookup now p q (some entry) m =
    put_credentials-lookup m p q (ltb_ℤ now entry.expires_at)
      (credentials_of p entry.access_token none)

update_copilot-lookup :
    (now : ℤ) (q : ProviderId) (o : Option CopilotTokenEntry)
    (m : Map ProviderId ProviderCredentials)
    → lookup q (update_copilot now o m) ≡ (
        if copilot == q
        then (elim o as (λ _. Option ProviderCredentials) [
          | none ↦ lookup q m
          | some entry ↦
              live now entry.expires_at
                (credentials_of copilot entry.session_token (some entry.base_url))
        ])
        else lookup q m)
unfolding update_copilot
update_copilot-lookup now q none m = elim (Bool-cases (copilot == q)) [
  | inl e ↦ rw e refl
  | inr e ↦ rw e refl
]
update_copilot-lookup now q (some entry) m =
    put_credentials-lookup m copilot q (ltb_ℤ now entry.expires_at)
      (credentials_of copilot entry.session_token (some entry.base_url))

or_before {ℓ κ} :
    {A : Type ℓ} {B : Type κ} {x y : B} (f : A → B) (o : Option A)
    → x ≡ y
    → (elim o as (λ _. B) [ none ↦ x | some a ↦ f a ])
      ≡ (elim o as (λ _. B) [ none ↦ y | some a ↦ f a ])
or_before f none e = e
or_before f (some a) e = refl

update_credentials_from_tokens-expected :
    (now : ℤ) (file : TokenFile) (m : Map ProviderId ProviderCredentials) (p : ProviderId)
    → lookup p (update_credentials_from_tokens now file m) ≡ expected now file m p
unfolding update_credentials_from_tokens
update_credentials_from_tokens-expected now file m kiro =
    update_copilot-lookup now kiro file.copilot_entry (
      update_oauth now open_ai_codex file.openai_entry
        (update_oauth now anthropic file.anthropic_entry m))
    ∙ update_oauth-lookup now open_ai_codex kiro file.openai_entry
        (update_oauth now anthropic file.anthropic_entry m)
    ∙ update_oauth-lookup now anthropic kiro file.anthropic_entry m
update_credentials_from_tokens-expected now file m anthropic =
    update_copilot-lookup now anthropic file.copilot_entry (
      update_oauth now open_ai_codex file.openai_entry
        (update_oauth now anthropic file.anthropic_entry m))
    ∙ update_oauth-lookup now open_ai_codex anthropic file.openai_entry
        (update_oauth now anthropic file.anthropic_entry m)
    ∙ update_oauth-lookup now anthropic anthropic file.anthropic_entry m
update_credentials_from_tokens-expected now file m open_ai_codex =
    update_copilot-lookup now open_ai_codex file.copilot_entry (
      update_oauth now open_ai_codex file.openai_entry
        (update_oauth now anthropic file.anthropic_entry m))
    ∙ update_oauth-lookup now open_ai_codex open_ai_codex file.openai_entry
        (update_oauth now anthropic file.anthropic_entry m)
    ∙ or_before
        (λ (entry : OAuthTokenEntry).
          live now entry.expires_at (credentials_of open_ai_codex entry.access_token none))
        file.openai_entry (update_oauth-lookup now anthropic open_ai_codex file.anthropic_entry m)
update_credentials_from_tokens-expected now file m copilot =
    update_copilot-lookup now copilot file.copilot_entry (
      update_oauth now open_ai_codex file.openai_entry
        (update_oauth now anthropic file.anthropic_entry m))
    ∙ or_before
        (λ (entry : CopilotTokenEntry).
          live now entry.expires_at
            (credentials_of copilot entry.session_token (some entry.base_url)))
        file.copilot_entry
        (update_oauth-lookup now open_ai_codex copilot file.openai_entry
            (update_oauth now anthropic file.anthropic_entry m)
          ∙ update_oauth-lookup now anthropic copilot file.anthropic_entry m)
update_credentials_from_tokens-expected now file m huawei_maas =
    update_copilot-lookup now huawei_maas file.copilot_entry (
      update_oauth now open_ai_codex file.openai_entry
        (update_oauth now anthropic file.anthropic_entry m))
    ∙ update_oauth-lookup now open_ai_codex huawei_maas file.openai_entry
        (update_oauth now anthropic file.anthropic_entry m)
    ∙ update_oauth-lookup now anthropic huawei_maas file.anthropic_entry m

-- A load answers for every provider what the file says: the token of an entry that has not expired, nothing
-- for one that has, and what was there before for a provider without an entry.
pub load_from_file-expected :
    (now : ℤ) (m : ProxyTokenManager) (file : TokenFile) (p : ProviderId)
    → read_token_file m.token_file ≡ some file
    → lookup p (load_from_file now m).0.credentials ≡ expected now file m.credentials p
unfolding load_from_file update_credentials_from_tokens
load_from_file-expected now m file p e =
    rw (e, load_from_file) (update_credentials_from_tokens-expected now file m.credentials p)
