-- ===== src/Providers/TokenManager/Examples.antt =====
-- An entry that expires soon, one that has expired, and the registry that shares the credentials.
use rkgw.Base.{ℕ, String, true, false, List, [], ◌∷◌, Option, none, some, ◌≡◌, refl}
use rkgw.Base.Int.{pos}
use rkgw.Base.Maps.{lookup}
use rkgw.Base.Sets.{contains}
use rkgw.Providers.Id.{anthropic, provider_eq}
use rkgw.Providers.Registry.{ProviderRegistry}
use rkgw.Providers.Registry.Enabled.{IsValid}
use rkgw.Providers.TokenManager.{
  OAuthTokenEntry, TokenFile, tokens, ProxyTokenManager, TokenResult, CopilotSession,
  read_token_file, load_from_file, refresh_expiring_tokens, credentials_of,
}
use rkgw.Providers.TokenManager.Credentials.{
  Operation, load, refresh_all, store_oauth, perform_all, perform_all-IsValid,
  load_from_file-expected,
}
use rkgw.Providers.TokenManager.Refresh.{
  KeepsTokens, refresh_expiring_tokens-KeepsTokens, refresh_expiring_tokens-stale,
}

abbrev entry : String → ℕ → OAuthTokenEntry
entry token expires_at = record {
  access_token = token;
  refresh_token = "r";
  expires_at = pos expires_at;
}

abbrev file : TokenFile
file = record {
  anthropic_entry = some (entry "a" 1100);
  openai_entry = some (entry "o" 900);
  copilot_entry = none;
}

abbrev manager : ProxyTokenManager
manager = record { token_file = tokens file; credentials = [] }

abbrev answers : String → String → Option TokenResult
answers provider token =
    some (record { access_token = "n"; refresh_token = ""; expires_in = pos 3600 })

abbrev fails : String → String → Option TokenResult
fails provider token = none

abbrev no_session : String → Option CopilotSession
no_session token = none

abbrev registry : ProviderRegistry
registry = record { cache = []; proxy_credentials = []; disabled_providers = [] }

registry-IsValid : IsValid registry
unfolding lookup contains
registry-IsValid = record {
  cached = λ user_id e h. absurd (cc);
  proxied = λ p c h. absurd (cc);
  kiro_enabled = refl;
}

abbrev operations : List Operation
operations =
    load (pos 1000)
    ∷ refresh_all false (pos 1000)
    ∷ store_oauth true (pos 1000) "openai" "x" "y" (pos 60)
    ∷ []

perform_all-IsValid_example : IsValid (record registry {
  proxy_credentials = (perform_all answers no_session operations manager).credentials;
})
perform_all-IsValid_example =
    perform_all-IsValid answers no_session operations manager registry registry-IsValid

load_from_file-expected_example :
    lookup anthropic (load_from_file (pos 1000) manager).0.credentials
    ≡ some (credentials_of anthropic "a" none)
unfolding read_token_file
load_from_file-expected_example = load_from_file-expected (pos 1000) manager file anthropic refl

refresh_expiring_tokens-KeepsTokens_example :
    (next : TokenFile) × (read_token_file
        (refresh_expiring_tokens answers no_session false (pos 1000) manager).0.token_file
      ≡ some next)
    × KeepsTokens file next
unfolding read_token_file
refresh_expiring_tokens-KeepsTokens_example =
    refresh_expiring_tokens-KeepsTokens answers no_session false (pos 1000) manager file refl

refresh_expiring_tokens-stale_example :
    refresh_expiring_tokens fails no_session false (pos 2000) manager ≡ (manager, some 0)
unfolding read_token_file
refresh_expiring_tokens-stale_example =
    refresh_expiring_tokens-stale fails no_session false (pos 2000) manager file refl
      (λ provider token. refl) (λ token. refl)
