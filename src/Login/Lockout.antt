-- ===== src/Login/Lockout.antt =====
-- The lockout: in the window of a first failure at most five wrong passwords are tried, and after the
-- fifth the account is locked for the rest of the window.
use rkgw.Base.{
  ℕ, ◌+◌, ◌-◌, ◌*◌, ◌%◌, ◌^◌, ◌≤◌, ◌<◌, String, Bool, false, ◌&&◌, not, List, [], ◌∷◌, Option, none,
  some, arith, ◌≡◌, inl, inr, refl, ap, subst, sym, ◌∙◌, ltb, ◌==◌, Bool-cases, All, ltb→lt, length,
  string_eq,
}
use native.Mathlib.Nat.{mod-eq_of_lt}
use rkgw.Base.Maps.{lookup, lookup-insert_self}
use rkgw.Login.{
  lockout_window_secs, LoginRateLimiter, elapsed_secs, check_rate_limit, failed_entry,
  record_login_failure, LoginUser, LoginResult, account_locked, invalid_credentials, conclude,
  authenticate, login_handler, run_logins,
}

-- The time lies in the window that a first failure opens.
abbrev pub InWindow : ℕ → ℕ → Type 0
InWindow first now = (first ≤ now) × (now < first + lockout_window_secs * 1_000_000_000)

-- The attempts whose password was looked at.
unfoldable pub count_tried : List LoginResult → ℕ
count_tried [] = 0
count_tried (account_locked secs ∷ results) = count_tried results
count_tried (_ ∷ results) = 1 + count_tried results

window_open : (first now : ℕ) → InWindow first now → elapsed_secs first now < lockout_window_secs
unfolding elapsed_secs
window_open first now h = omega (arith, h.0, h.1)

counted_up :
    (now count first : ℕ)
    → elapsed_secs first now < lockout_window_secs
    → count < 5
    → failed_entry (some (count, first)) now ≡ (count + 1, first)
unfolding failed_entry
counted_up now count first open_ free =
    let small : (count + 1) % 2 ^ 32 ≡ count + 1 = mod-eq_of_lt (omega arith) in
    ground (arith, open_, small)

module _ (limiter : LoginRateLimiter) (now : ℕ) (email : String) (count first : ℕ)
    (entry : lookup email limiter ≡ some (count, first)) (h : InWindow first now) where
  check_full :
      5 ≤ count
      → check_rate_limit limiter now email ≡ some (lockout_window_secs - elapsed_secs first now)
  unfolding check_rate_limit
  check_full full =
      let open_ = window_open first now h in
      rw (entry, check_rate_limit) (ground (arith, open_, full))

  check_free : count < 5 → check_rate_limit limiter now email ≡ none
  unfolding check_rate_limit
  check_free free = rw (entry, check_rate_limit) (ground (arith, free))

  failure_counted :
      count < 5 → lookup email (record_login_failure limiter now email) ≡ some (count + 1, first)
  unfolding record_login_failure failed_entry
  failure_counted free =
      let open_ = window_open first now h in
      lookup-insert_self email (failed_entry (lookup email limiter) now) limiter
      ∙ ap some (ap (λ o. failed_entry o now) entry ∙ counted_up now count first open_ free)

-- A stored user whose password is not among those that are tried.
module _ (verify_password : String → String → Option Bool)
    (get_user : String → Option (Option LoginUser)) (auth_password_enabled : Bool)
    (email hash : String) (user : LoginUser) (stored : get_user email ≡ some (some user))
    (has_hash : user.password_hash ≡ some hash)
    (allowed : (not (user.role == "admin") && not auth_password_enabled) ≡ false) where
  abbrev AllWrong : ℕ → List (ℕ × String) → Type 0
  AllWrong first attempts =
      All (λ a. InWindow first a.0 × (verify_password a.1 hash ≡ some false)) attempts

  -- A free attempt is forbidden, or tries the password.
  abbrev attempt : LoginRateLimiter → ℕ → String → LoginResult × LoginRateLimiter
  attempt limiter now password =
      login_handler verify_password get_user auth_password_enabled limiter now email password

  attempt_locked :
      (limiter : LoginRateLimiter) (now secs : ℕ) (password : String)
      → check_rate_limit limiter now email ≡ some secs
      → attempt limiter now password ≡ (account_locked secs, limiter)
  unfolding login_handler
  attempt_locked limiter now secs password e = rw (e, login_handler) refl

  attempt_wrong :
      (limiter : LoginRateLimiter) (now : ℕ) (password : String)
      → check_rate_limit limiter now email ≡ none
      → verify_password password hash ≡ some false
      → attempt limiter now password ≡ (invalid_credentials, record_login_failure limiter now email)
  unfolding login_handler authenticate conclude
  attempt_wrong limiter now password e wrong =
      rw (e, login_handler) (rw (stored, authenticate) (rw (allowed, has_hash, wrong) refl))

  abbrev outcome : LoginRateLimiter → List (ℕ × String) → List LoginResult × LoginRateLimiter
  outcome limiter attempts =
      run_logins verify_password get_user auth_password_enabled limiter email attempts

  run_cons :
      (limiter limiter' : LoginRateLimiter) (now : ℕ) (password : String)
      (attempts : List (ℕ × String)) (result : LoginResult)
      → attempt limiter now password ≡ (result, limiter')
      → outcome limiter ((now, password) ∷ attempts)
        ≡ (result ∷ (outcome limiter' attempts).0, (outcome limiter' attempts).1)
  unfolding run_logins
  run_cons limiter limiter' now password attempts result e = rw (e, run_logins) refl

  -- The entry after the attempts: the failures are counted up to the limit.
  abbrev Counted : ℕ → ℕ → List (ℕ × String) → List LoginResult × LoginRateLimiter → Type 0
  Counted count first attempts answer =
      (total : ℕ) × (lookup email answer.1 ≡ some (total, first))
      × (total ≡ count + count_tried answer.0)
      × (total ≤ 5)
      × (5 ≤ count + length attempts → 5 ≤ total)

  counted :
      (limiter : LoginRateLimiter) (count first : ℕ) (attempts : List (ℕ × String))
      → lookup email limiter ≡ some (count, first)
      → count ≤ 5
      → AllWrong first attempts
      → Counted count first attempts (outcome limiter attempts)
  unfolding run_logins count_tried
  counted limiter count first [] entry few wrong =
      (count, entry, omega arith, few, λ h. omega arith)
  counted limiter count first ((now, password) ∷ attempts) entry few ((open_, is_wrong), wrong) =
      elim (Bool-cases (ltb count 5)) [
        | inl free ↦
            let lt = ltb→lt count 5 free in
            let (total, there, sum, small, full) =
              counted (record_login_failure limiter now email) (count + 1) first attempts
                (failure_counted limiter now email count first entry open_ lt) (omega arith)
                wrong in
            subst (Counted count first ((now, password) ∷ attempts))
              (sym (
                run_cons limiter _ now password attempts _ (
                  attempt_wrong limiter now password
                    (check_free limiter now email count first entry open_ lt) is_wrong)))
              (total, there, omega arith, small, λ h. full (omega arith))
        | inr busy ↦
            let le : 5 ≤ count = ground arith in
            let (total, there, sum, small, full) =
              counted limiter count first attempts entry few wrong in
            subst (Counted count first ((now, password) ∷ attempts))
              (sym (
                run_cons limiter _ now password attempts _ (
                  attempt_locked limiter now _ password
                    (check_full limiter now email count first entry open_ le))))
              (total, there, sum, small, λ h. omega arith)
      ]

  module _ (limiter : LoginRateLimiter) (fresh : lookup email limiter ≡ none) (first : ℕ)
      (password : String) (attempts : List (ℕ × String))
      (wrong : AllWrong first ((first, password) ∷ attempts)) where
    abbrev all_outcomes : List LoginResult × LoginRateLimiter
    all_outcomes = outcome limiter ((first, password) ∷ attempts)

    fresh_entry : lookup email (record_login_failure limiter first email) ≡ some (1, first)
    unfolding record_login_failure failed_entry
    fresh_entry =
        lookup-insert_self email (failed_entry (lookup email limiter) first) limiter
        ∙ ap some (ap (λ o. failed_entry o first) fresh)

    fresh_free : check_rate_limit limiter first email ≡ none
    unfolding check_rate_limit
    fresh_free = rw (fresh, check_rate_limit) refl

    from_first : Counted 0 first ((first, password) ∷ attempts) all_outcomes
    unfolding count_tried
    from_first =
        let (total, there, sum, small, full) =
          counted (record_login_failure limiter first email) 1 first attempts fresh_entry
            (omega arith) wrong.1 in
        subst (Counted 0 first ((first, password) ∷ attempts))
          (sym (
            run_cons limiter _ first password attempts _
              (attempt_wrong limiter first password fresh_free wrong.0.1)))
          (total, there, omega arith, small, λ h. full (omega arith))

    -- Take a stored user who may log in by password and has no failure on record. Of any attempts,
    -- all with wrong passwords and in the window that the first one opens, at most five have
    -- their password checked.
    pub tries_bounded : count_tried all_outcomes.0 ≤ 5
    tries_bounded = let (total, _, sum, few, _) = from_first in omega (arith, sum, few)

    -- After at least five such attempts, the account is locked until the window is over, also for the
    -- right password: the answer is the seconds that are left, and the limiter stays as it is.
    pub login_locked :
        (later : ℕ) (any_password : String)
        → 5 ≤ length ((first, password) ∷ attempts)
        → InWindow first later
        → login_handler verify_password get_user auth_password_enabled all_outcomes.1 later email
            any_password
          ≡ (account_locked (lockout_window_secs - elapsed_secs first later), all_outcomes.1)
    login_locked later any_password many open_ =
        let (total, there, _, _, full) = from_first in
        attempt_locked all_outcomes.1 later _ any_password
          (check_full all_outcomes.1 later email total first there open_ (full (omega arith)))
