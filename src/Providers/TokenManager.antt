-- ===== src/Providers/TokenManager.antt =====
-- backend/src/proxy_token_manager.rs: the token file of the proxy mode, the live credentials that it shares
-- with the provider registry, and the refresh of tokens. The file holds tokens, is missing, or cannot be
-- read; `write_fails` says that a write fails, and as the file is replaced by a rename, it is then as before.
-- `refresh` and `session` answer what the token endpoints answer, none for an error. One reading of the clock
-- serves a whole operation. An i64 wraps around, as in a release build. `none` is an error.
pub mod Credentials
pub mod Refresh
mod Examples
use rkgw.Base.{
  ℕ, zero, suc, ◌+◌, ◌-◌, ◌%◌, ◌^◌, String, Bool, true, false, ◌&&◌, ◌||◌, not, List, [], ◌∷◌,
  Option, none, some, ltb, if◌then◌else◌, ◌==◌, string_eq, ◌>>=◌, is_some,
}
use rkgw.Base.Int.{ℤ, pos, negsuc, ◌+ℤ◌, ltb_ℤ}
use rkgw.Base.Maps.{Map, lookup, insert, remove}
use rkgw.Base.Text.{is_empty_str}
use rkgw.Providers.Id.{ProviderId, anthropic, open_ai_codex, copilot, provider_eq}
use rkgw.Providers.Registry.{ProviderCredentials}

pub record OAuthTokenEntry : Type 0 where
  pub access_token : String
  pub refresh_token : String
  pub expires_at : ℤ

pub record CopilotTokenEntry : Type 0 where
  pub session_token : String
  pub base_url : String
  pub expires_at : ℤ
  pub github_token : Option String

pub record TokenFile : Type 0 where
  pub anthropic_entry : Option OAuthTokenEntry
  pub openai_entry : Option OAuthTokenEntry
  pub copilot_entry : Option CopilotTokenEntry

pub data Stored : Type 0 where
  missing unreadable : Stored
  tokens : TokenFile → Stored

pub record ProxyTokenManager : Type 0 where
  pub token_file : Stored
  pub credentials : Map ProviderId ProviderCredentials

-- What a token endpoint answers.
pub record TokenResult : Type 0 where
  pub access_token : String
  pub refresh_token : String
  pub expires_in : ℤ

pub record CopilotSession : Type 0 where
  pub session_token : String
  pub base_url : String
  pub expires_at : ℤ

abbrev signed_long : ℕ → ℤ
signed_long w = if ltb w (2 ^ 63) then pos w else negsuc (2 ^ 64 - 1 - w)

-- The i64 with the low 64 bits of an integer.
unfoldable pub as_long : ℤ → ℤ
as_long (pos n) = signed_long (n % 2 ^ 64)
as_long (negsuc n) = signed_long (2 ^ 64 - 1 - n % 2 ^ 64)

abbrev pub negated : ℤ → ℤ
negated (pos zero) = pos zero
negated (pos (suc n)) = negsuc n
negated (negsuc n) = pos (suc n)

abbrev pub plus : ℤ → ℤ → ℤ
unfolding as_long
plus a b = as_long (a +ℤ b)

abbrev pub refresh_buffer_secs : ℤ
refresh_buffer_secs = pos 300

-- `(expires_at - now) < REFRESH_BUFFER_SECS`
unfoldable pub is_expiring : ℤ → ℤ → Bool
unfolding as_long
is_expiring expires_at now = ltb_ℤ (plus expires_at (negated now)) refresh_buffer_secs

abbrev pub empty_file : TokenFile
empty_file = record { anthropic_entry = none; openai_entry = none; copilot_entry = none }

unfoldable pub read_token_file : Stored → Option TokenFile
read_token_file missing = some empty_file
read_token_file unreadable = none
read_token_file (tokens file) = some file

abbrev pub credentials_of : ProviderId → String → Option String → ProviderCredentials
credentials_of p token base_url = record {
  provider = p;
  access_token = token;
  base_url = base_url;
  account_label = "proxy";
}

abbrev pub put_credentials :
    Map ProviderId ProviderCredentials
    → ProviderId
    → Bool
    → ProviderCredentials
    → Map ProviderId ProviderCredentials
put_credentials m p true c = insert p c m
put_credentials m p false c = remove p m

-- The credentials of a provider, from its entry in the file.
unfoldable pub update_oauth :
    ℤ
    → ProviderId
    → Option OAuthTokenEntry
    → Map ProviderId ProviderCredentials
    → Map ProviderId ProviderCredentials
unfolding insert remove
update_oauth now p none m = m
update_oauth now p (some entry) m =
    put_credentials m p (ltb_ℤ now entry.expires_at) (credentials_of p entry.access_token none)

unfoldable pub update_copilot :
    ℤ
    → Option CopilotTokenEntry
    → Map ProviderId ProviderCredentials
    → Map ProviderId ProviderCredentials
unfolding insert remove
update_copilot now none m = m
update_copilot now (some entry) m =
    put_credentials m copilot (ltb_ℤ now entry.expires_at)
      (credentials_of copilot entry.session_token (some entry.base_url))

unfoldable pub update_credentials_from_tokens :
    ℤ → TokenFile → Map ProviderId ProviderCredentials → Map ProviderId ProviderCredentials
unfolding update_oauth update_copilot
update_credentials_from_tokens now file m = update_copilot now file.copilot_entry (
    update_oauth now open_ai_codex file.openai_entry
      (update_oauth now anthropic file.anthropic_entry m))

-- A write, and behind it the update of the live credentials.
unfoldable pub write_and_update :
    Bool → ℤ → TokenFile → ProxyTokenManager → ProxyTokenManager × Bool
unfolding update_credentials_from_tokens
write_and_update write_fails now file m = if write_fails then (m, false) else (
  record {
    token_file = tokens file;
    credentials = update_credentials_from_tokens now file m.credentials;
  },
  true,
)

abbrev pub set_oauth : TokenFile → String → OAuthTokenEntry → Option TokenFile
set_oauth file provider entry =
    if provider == "anthropic"
    then some (record file { anthropic_entry = some entry })
    else if (provider == "openai_codex") || (provider == "openai")
    then some (record file { openai_entry = some entry })
    else none

abbrev pub with_file :
    ProxyTokenManager
    → Option TokenFile
    → (TokenFile → ProxyTokenManager × Bool)
    → ProxyTokenManager × Bool
with_file m none f = (m, false)
with_file m (some file) f = f file

unfoldable pub store_oauth_tokens :
    Bool → ℤ → String → String → String → ℤ → ProxyTokenManager → ProxyTokenManager × Bool
unfolding read_token_file write_and_update as_long
store_oauth_tokens write_fails now provider access_token refresh_token expires_in m =
    let entry : OAuthTokenEntry = record {
      access_token = access_token;
      refresh_token = refresh_token;
      expires_at = plus now expires_in;
    } in
    with_file m (read_token_file m.token_file >>= λ file. set_oauth file provider entry)
      (λ file. write_and_update write_fails now file m)

unfoldable pub store_copilot_tokens :
    Bool → ℤ → CopilotTokenEntry → ProxyTokenManager → ProxyTokenManager × Bool
unfolding read_token_file write_and_update
store_copilot_tokens write_fails now entry m =
    with_file m (read_token_file m.token_file)
      (λ file. write_and_update write_fails now (record file { copilot_entry = some entry }) m)

unfoldable pub load_from_file : ℤ → ProxyTokenManager → ProxyTokenManager × Bool
unfolding read_token_file update_credentials_from_tokens
load_from_file now m = with_file m (read_token_file m.token_file) (λ file.
    (record m { credentials = update_credentials_from_tokens now file m.credentials }, true))

abbrev pub refreshed_entry : ℤ → OAuthTokenEntry → TokenResult → OAuthTokenEntry
refreshed_entry now entry result = record {
  access_token = result.access_token;
  refresh_token =
      if is_empty_str result.refresh_token then entry.refresh_token else result.refresh_token;
  expires_at = plus now result.expires_in;
}

module _ (refresh : String → String → Option TokenResult)
    (session : String → Option CopilotSession) where
  -- An entry, and what a refresh puts in its place, if one is due and succeeds.
  unfoldable pub refresh_oauth : ℤ → String → Option OAuthTokenEntry → Option OAuthTokenEntry
  unfolding is_expiring as_long
  refresh_oauth now provider none = none
  refresh_oauth now provider (some entry) =
      if not (is_empty_str entry.refresh_token) && is_expiring entry.expires_at now
      then (refresh provider entry.refresh_token >>= λ result.
          some (refreshed_entry now entry result))
      else none

  unfoldable pub refresh_copilot : ℤ → Option CopilotTokenEntry → Option CopilotTokenEntry
  unfolding is_expiring
  refresh_copilot now o = o >>= λ entry. entry.github_token >>= λ gh_token.
      if is_expiring entry.expires_at now
      then (session gh_token >>= λ s. some (record {
        session_token = s.session_token;
        base_url = s.base_url;
        expires_at = s.expires_at;
        github_token = some gh_token;
      }))
      else none

  abbrev pub or_old {ℓ} : {A : Type ℓ} → Option A → Option A → Option A
  or_old none old = old
  or_old (some a) old = some a

  abbrev pub count {ℓ} : {A : Type ℓ} → Option A → ℕ
  count none = 0
  count (some a) = 1

  -- The file with all entries refreshed that are due, and how many were.
  unfoldable pub refresh_file : ℤ → TokenFile → TokenFile × ℕ
  unfolding refresh_oauth refresh_copilot
  refresh_file now file =
      let a = refresh_oauth now "anthropic" file.anthropic_entry in
      let o = refresh_oauth now "openai_codex" file.openai_entry in
      let c = refresh_copilot now file.copilot_entry in
      (
        record {
          anthropic_entry = or_old a file.anthropic_entry;
          openai_entry = or_old o file.openai_entry;
          copilot_entry = or_old c file.copilot_entry;
        },
        count a + count o + count c,
      )

  unfoldable pub refresh_expiring_tokens :
      Bool → ℤ → ProxyTokenManager → ProxyTokenManager × Option ℕ
  unfolding read_token_file refresh_file write_and_update
  refresh_expiring_tokens write_fails now m = elim (read_token_file m.token_file) [
    | none ↦ (m, none)
    | some file ↦
        let (next, refreshed) = refresh_file now file in
        let (written, done) = write_and_update write_fails now next m in
        (if ltb 0 refreshed
          then (written, (if done then some refreshed else none))
          else (m, some 0))
  ]
