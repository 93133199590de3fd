-- ===== src/Providers/TokenManager/Refresh.antt =====
-- What a refresh keeps, and what it leaves alone.
use rkgw.Base.{
  ℕ, String, Bool, true, false, ◌&&◌, not, Option, none, some, ltb, if◌then◌else◌, ◌≡◌, inl, inr,
  refl, Bool-cases, Option-cases,
}
use rkgw.Base.Int.{ℤ}
use rkgw.Base.Text.{is_empty_str}
use rkgw.Providers.TokenManager.{
  OAuthTokenEntry, CopilotTokenEntry, TokenFile, ProxyTokenManager, TokenResult, CopilotSession,
  is_expiring, read_token_file, write_and_update, refreshed_entry, refresh_oauth, refresh_copilot,
  or_old, refresh_file, refresh_expiring_tokens,
}

-- An entry that can be refreshed.
abbrev pub IsRefreshable : Option OAuthTokenEntry → Type 0
IsRefreshable none = ⊥
IsRefreshable (some entry) = is_empty_str entry.refresh_token ≡ false

abbrev pub HasGithubToken : Option CopilotTokenEntry → Type 0
HasGithubToken none = ⊥
HasGithubToken (some entry) = (t : String) × (entry.github_token ≡ some t)

-- Each entry that could be refreshed before can be refreshed.
abbrev pub KeepsTokens : TokenFile → TokenFile → Type 0
KeepsTokens file next =
    (IsRefreshable file.anthropic_entry → IsRefreshable next.anthropic_entry)
    × (IsRefreshable file.openai_entry → IsRefreshable next.openai_entry)
    × (HasGithubToken file.copilot_entry → HasGithubToken next.copilot_entry)

refreshed_entry-IsRefreshable :
    (now : ℤ) (entry : OAuthTokenEntry) (result : TokenResult)
    → is_empty_str entry.refresh_token ≡ false
    → IsRefreshable (some (refreshed_entry now entry result))
refreshed_entry-IsRefreshable now entry result h =
    elim (Bool-cases (is_empty_str result.refresh_token)) [ inl e ↦ rw e h | inr e ↦ rw e e ]

module _ (refresh : String → String → Option TokenResult)
    (session : String → Option CopilotSession) where
  refresh_oauth-IsRefreshable :
      (now : ℤ) (provider : String) (o : Option OAuthTokenEntry)
      → IsRefreshable o
      → IsRefreshable (or_old refresh session (refresh_oauth refresh session now provider o) o)
  unfolding refresh_oauth
  refresh_oauth-IsRefreshable now provider none h = absurd h
  refresh_oauth-IsRefreshable now provider (some entry) h =
      elim (Bool-cases
        (not (is_empty_str entry.refresh_token) && is_expiring entry.expires_at now)) [
          | inl due ↦ elim (Option-cases (refresh provider entry.refresh_token)) [
            | inl e ↦ rw (due, refresh_oauth) (rw e h)
            | inr (result, e) ↦
                rw (due, refresh_oauth) (rw e (refreshed_entry-IsRefreshable now entry result h))
          ]
          | inr later ↦ rw (later, refresh_oauth) h
        ]

  refresh_copilot-HasGithubToken :
      (now : ℤ) (o : Option CopilotTokenEntry)
      → HasGithubToken o
      → HasGithubToken (or_old refresh session (refresh_copilot refresh session now o) o)
  unfolding refresh_copilot
  refresh_copilot-HasGithubToken now none h = absurd h
  refresh_copilot-HasGithubToken now (some entry) (t, has) =
      elim (Bool-cases (is_expiring entry.expires_at now)) [
        | inl due ↦ elim (Option-cases (session t)) [
          | inl e ↦ rw (has, refresh_copilot) (rw due (rw e (t, refl)))
          | inr (s, e) ↦ rw (has, refresh_copilot) (rw due (rw e (t, refl)))
        ]
        | inr later ↦ rw (has, refresh_copilot) (rw later (t, refl))
      ]

  refresh_file-KeepsTokens :
      (now : ℤ) (file : TokenFile) → KeepsTokens file (refresh_file refresh session now file).0
  unfolding refresh_file
  refresh_file-KeepsTokens now file = (
    refresh_oauth-IsRefreshable now "anthropic" file.anthropic_entry,
    refresh_oauth-IsRefreshable now "openai_codex" file.openai_entry,
    refresh_copilot-HasGithubToken now file.copilot_entry,
  )

  -- Whatever the token endpoints answer and whether or not the write succeeds, the file can be read after a
  -- refresh, and each entry that could be refreshed before can be refreshed again.
  pub refresh_expiring_tokens-KeepsTokens :
      (write_fails : Bool) (now : ℤ) (m : ProxyTokenManager) (file : TokenFile)
      → read_token_file m.token_file ≡ some file
      → (next : TokenFile) × (read_token_file
            (refresh_expiring_tokens refresh session write_fails now m).0.token_file
          ≡ some next)
        × KeepsTokens file next
  unfolding refresh_expiring_tokens
  refresh_expiring_tokens-KeepsTokens write_fails now m file e =
      let (next, refreshed) = refresh_file refresh session now file in
      rw (e, refresh_expiring_tokens) (decided write_fails (ltb 0 refreshed))
    where
      same : (f : TokenFile) → KeepsTokens f f
      same f = ((λ h. h), (λ h. h), (λ h. h))

      decided :
          (fails b : Bool)
          → let (next, refreshed) = refresh_file refresh session now file in
            let (written, done) = write_and_update fails now next m in
            (after : TokenFile) × (read_token_file
                (if◌then◌else◌ {A = ProxyTokenManager × Option ℕ} b
                  (written, (if done then some refreshed else none))
                  (m, some 0)).0.token_file
              ≡ some after)
            × KeepsTokens file after
      decided fails false = (file, e, same file)
      decided true true = (file, e, same file)
      decided false true =
          ((refresh_file refresh session now file).0, refl, refresh_file-KeepsTokens now file)

  refresh_oauth-eq-none :
      (now : ℤ) (provider : String) (o : Option OAuthTokenEntry)
      → ((token : String) → refresh provider token ≡ none)
      → refresh_oauth refresh session now provider o ≡ none
  unfolding refresh_oauth
  refresh_oauth-eq-none now provider none h = refl
  refresh_oauth-eq-none now provider (some entry) h =
      elim (Bool-cases
        (not (is_empty_str entry.refresh_token) && is_expiring entry.expires_at now)) [
          | inl due ↦ rw (due, refresh_oauth) (rw (h entry.refresh_token) refl)
          | inr later ↦ rw (later, refresh_oauth) refl
        ]

  refresh_copilot-eq-none :
      (now : ℤ) (o : Option CopilotTokenEntry)
      → ((token : String) → session token ≡ none)
      → refresh_copilot refresh session now o ≡ none
  unfolding refresh_copilot
  refresh_copilot-eq-none now none h = refl
  refresh_copilot-eq-none now (some entry) h = elim (Option-cases entry.github_token) [
    | inl e ↦ rw (e, refresh_copilot) refl
    | inr (t, e) ↦ elim (Bool-cases (is_expiring entry.expires_at now)) [
      | inl due ↦ rw (e, refresh_copilot) (rw due (rw (h t) refl))
      | inr later ↦ rw (e, refresh_copilot) (rw later refl)
    ]
  ]

  -- Where every refresh fails, nothing changes: credentials whose token has expired stay live.
  pub refresh_expiring_tokens-stale :
      (write_fails : Bool) (now : ℤ) (m : ProxyTokenManager) (file : TokenFile)
      → read_token_file m.token_file ≡ some file
      → ((provider token : String) → refresh provider token ≡ none)
      → ((token : String) → session token ≡ none)
      → refresh_expiring_tokens refresh session write_fails now m ≡ (m, some 0)
  unfolding refresh_expiring_tokens refresh_file
  refresh_expiring_tokens-stale write_fails now m file e no_refresh no_session =
      rw (e, refresh_expiring_tokens)
        (rw
          (
            refresh_oauth-eq-none now "anthropic" file.anthropic_entry (no_refresh "anthropic"),
            refresh_oauth-eq-none now "openai_codex" file.openai_entry (no_refresh "openai_codex"),
            refresh_copilot-eq-none now file.copilot_entry no_session,
          )
          refl)
