-- ===== src/Login.antt =====
-- backend/src/web_ui/password_auth.rs: the limit on failed logins, and the login up to the point where
-- the password is verified. The password check is a parameter: `none` is its error.
pub mod Lockout
mod Examples
use rkgw.Base.{
  ℕ, ◌+◌, ◌-◌, ◌*◌, ◌/◌, ◌%◌, ◌^◌, String, Bool, true, false, ◌&&◌, not, List, [], ◌∷◌, Option,
  none, some, leb, ltb, ◌==◌, if◌then◌else◌, string_eq,
}
use rkgw.Base.Maps.{Map, lookup, insert, remove}

abbrev pub max_login_attempts : ℕ
max_login_attempts = 5

abbrev pub lockout_window_secs : ℕ
lockout_window_secs = 900

-- By email: the number of failures and the time of the first, in nanoseconds.
abbrev pub LoginRateLimiter : Type 0
LoginRateLimiter = Map String (ℕ × ℕ)

-- `first_failure.elapsed().as_secs()`
unfoldable pub elapsed_secs : ℕ → ℕ → ℕ
elapsed_secs first now = (now - first) / 1_000_000_000

-- `some` is the error with the seconds to wait.
unfoldable pub check_rate_limit : LoginRateLimiter → ℕ → String → Option ℕ
unfolding elapsed_secs
check_rate_limit limiter now email = elim (lookup email limiter) [
  | none ↦ none
  | some (count, first_failure) ↦
      (let elapsed = elapsed_secs first_failure now in
        if leb max_login_attempts count && ltb elapsed lockout_window_secs
        then some (lockout_window_secs - elapsed)
        else none)
]

-- The entry that a failure leaves; the count is a u32.
unfoldable pub failed_entry : Option (ℕ × ℕ) → ℕ → ℕ × ℕ
unfolding elapsed_secs
failed_entry none now = (1, now)
failed_entry (some (count, first_failure)) now =
    if leb lockout_window_secs (elapsed_secs first_failure now)
    then (1, now)
    else ((count + 1) % 2 ^ 32, first_failure)

unfoldable pub record_login_failure : LoginRateLimiter → ℕ → String → LoginRateLimiter
unfolding failed_entry
record_login_failure limiter now email =
    insert email (failed_entry (lookup email limiter) now) limiter

unfoldable pub clear_rate_limit : LoginRateLimiter → String → LoginRateLimiter
clear_rate_limit limiter email = remove email limiter

pub record LoginUser : Type 0 where
  pub user_id : ℕ
  pub role : String
  pub password_hash : Option String
  pub totp_enabled : Bool
  pub must_change_password : Bool

-- The errors of the handler, and the user whose password is verified.
pub data LoginResult : Type 0 where
  account_locked : (retry_after_secs : ℕ) → LoginResult
  internal : LoginResult
  invalid_credentials : LoginResult
  forbidden : LoginResult
  verified : LoginUser → LoginResult

-- What is not the program's: the password check, the query for a user (`none` is its error), and
-- the setting that allows passwords.
module _ (verify_password : String → String → Option Bool)
    (get_user : String → Option (Option LoginUser)) (auth_password_enabled : Bool) where
  -- What the check of the password leads to.
  unfoldable pub conclude :
      LoginRateLimiter → ℕ → String → LoginUser → Option Bool → LoginResult × LoginRateLimiter
  conclude limiter now email user none = (internal, limiter)
  conclude limiter now email user (some false) =
      (invalid_credentials, record_login_failure limiter now email)
  conclude limiter now email user (some true) = (verified user, clear_rate_limit limiter email)

  -- A user with a password may be barred from using it.
  unfoldable pub authenticate :
      LoginRateLimiter
      → ℕ
      → String
      → String
      → Option (Option LoginUser)
      → LoginResult × LoginRateLimiter
  unfolding conclude
  authenticate limiter now email password none = (internal, limiter)
  authenticate limiter now email password (some none) = (invalid_credentials, limiter)
  authenticate limiter now email password (some (some user)) =
      if not (user.role == "admin") && not auth_password_enabled
      then (forbidden, limiter)
      else elim user.password_hash [
        | none ↦ (invalid_credentials, limiter)
        | some hash ↦ conclude limiter now email user (verify_password password hash)
      ]

  unfoldable pub login_handler :
      LoginRateLimiter → ℕ → String → String → LoginResult × LoginRateLimiter
  unfolding authenticate
  login_handler limiter now email password = elim (check_rate_limit limiter now email) [
    | some retry_after_secs ↦ (account_locked retry_after_secs, limiter)
    | none ↦ authenticate limiter now email password (get_user email)
  ]

  -- Attempts on one account in turn, each at its time with its password.
  unfoldable pub run_logins :
      LoginRateLimiter → String → List (ℕ × String) → List LoginResult × LoginRateLimiter
  unfolding login_handler
  run_logins limiter email [] = ([], limiter)
  run_logins limiter email ((now, password) ∷ attempts) =
      let (result, limiter') = login_handler limiter now email password in
      let (results, final) = run_logins limiter' email attempts in (result ∷ results, final)
