-- ===== src/Login/Examples.antt =====
-- A brute-force attempt on one account.
use rkgw.Base.{
  ℕ, ◌≤◌, ◌*◌, ◌-◌, String, Bool, true, false, List, [], ◌∷◌, Option, some, arith, ◌≡◌, refl, ◌==◌,
  string_eq,
}
use rkgw.Base.Maps.{lookup}
use rkgw.Login.{LoginUser, account_locked, elapsed_secs, login_handler, run_logins}
use rkgw.Login.Lockout.{count_tried, tries_bounded, login_locked}

abbrev ann : LoginUser
ann = record {
  user_id = 1;
  role = "user";
  password_hash = some "#secret";
  totp_enabled = false;
  must_change_password = false;
}

abbrev verify : String → String → Option Bool
verify password hash = some (password == "secret")

abbrev users : String → Option (Option LoginUser)
users email = some (some ann)

abbrev second : ℕ
second = 1_000_000_000

abbrev later_guesses : List (ℕ × String)
later_guesses =
    (1 * second, "b")
    ∷ (2 * second, "c")
    ∷ (3 * second, "d")
    ∷ (4 * second, "e")
    ∷ (5 * second, "f")
    ∷ []

tries_bounded_example :
    count_tried (run_logins verify users true [] "ann@x.org" ((0, "a") ∷ later_guesses)).0 ≤ 5
unfolding lookup
tries_bounded_example =
    tries_bounded verify users true "ann@x.org" "#secret" ann refl refl refl [] refl 0 "a"
      later_guesses
      (
        ((omega arith, omega arith), refl),
        (
          ((omega arith, omega arith), refl),
          (
            ((omega arith, omega arith), refl),
            (
              ((omega arith, omega arith), refl),
              (((omega arith, omega arith), refl), (((omega arith, omega arith), refl), tt)),
            ),
          ),
        ),
      )

login_locked_example :
    login_handler verify users true
      (run_logins verify users true [] "ann@x.org" ((0, "a") ∷ later_guesses)).1
      (100 * second)
      "ann@x.org"
      "secret"
    ≡ (
      account_locked (900 - elapsed_secs 0 (100 * second)),
      (run_logins verify users true [] "ann@x.org" ((0, "a") ∷ later_guesses)).1,
    )
unfolding lookup
login_locked_example =
    login_locked verify users true "ann@x.org" "#secret" ann refl refl refl [] refl 0 "a"
      later_guesses
      (
        ((omega arith, omega arith), refl),
        (
          ((omega arith, omega arith), refl),
          (
            ((omega arith, omega arith), refl),
            (
              ((omega arith, omega arith), refl),
              (((omega arith, omega arith), refl), (((omega arith, omega arith), refl), tt)),
            ),
          ),
        ),
      )
      (100 * second) "secret" (omega arith) (omega arith, omega arith)
