-- ===== src/Server/Auth/Window.antt =====
-- The invariant of the authenticator of internal/server/auth.go, and what a check answers.
use dddns.Prelude.{ℕ, ◌+◌, ◌≤◌, ◌<◌, ◌≡◌, ◌↔◌, ◌≢◌, [], ◌∷◌, ◌++◌, arith, List, ◌⊎◌, inl, inr}
use dddns.Prelude.Tests.{ltb, leb, Bool-cases, ltb→lt, leb→le}
use dddns.Prelude.Lists.{length, All, All-append, All-keep}
use dddns.Prelude.Text.{Text, text_eq, text_eq_iff}
use dddns.Server.Auth.{
  max_failures_per_window, lockout_duration, Authenticator, auth_ok, auth_bad_credentials,
  auth_locked_out, is_recent, window, record_failure, check, new_authenticator,
}

-- Every recorded failure lies in the past of `now`, and there are too few for a lockout.
pub record IsValid (now : ℕ) (a : Authenticator) : Type 0 where
  pub few : length a.failures < max_failures_per_window
  pub past : All (λ t. t ≤ now) a.failures

pub new_authenticator-IsValid : (secret : Text) (now : ℕ) → IsValid now (new_authenticator secret)
unfolding new_authenticator
new_authenticator-IsValid secret now = record { few = omega arith; past = tt }

past_later : (t now : ℕ) (fs : List ℕ) → t ≤ now → All (λ x. x ≤ t) fs → All (λ x. x ≤ now) fs
past_later t now [] h _ = tt
past_later t now (x ∷ fs) h (hx, hs) = (omega arith, past_later t now fs h hs)

pub IsValid-later : (t now : ℕ) (a : Authenticator) → t ≤ now → IsValid t a → IsValid now a
IsValid-later t now a h v = record { few = v.few; past = past_later t now a.failures h v.past }

past-window :
    (t now : ℕ) (fs : List ℕ) → t ≤ now → All (λ x. x ≤ t) fs → All (λ x. x ≤ now) (window now fs)
past-window t now fs h past =
    All-keep _ (is_recent now) (fs ++ now ∷ [])
      (All-append _ fs (now ∷ []) (past_later t now fs h past) (omega arith, tt))

-- The four ways through a check.
pub check-cases :
    (password : Text) (now : ℕ) (a : Authenticator)
    → ((now < a.locked_until) × (check password now a ≡ (a, auth_locked_out)))
      ⊎ ((password ≡ a.secret) × (check password now a ≡ (record a { failures = [] }, auth_ok)))
      ⊎ ((max_failures_per_window ≤ length (window now a.failures))
          × (check password now a ≡ (
            record a { failures = []; locked_until = now + lockout_duration },
            auth_bad_credentials,
          )))
      ⊎ ((length (window now a.failures) < max_failures_per_window)
          × (check password now a
              ≡ (record a { failures = window now a.failures }, auth_bad_credentials)))
unfolding check record_failure
check-cases password now a = elim (Bool-cases (ltb now a.locked_until)) [
  | inl locked ↦ inl (ltb→lt _ _ locked, rw locked)
  | inr free ↦ elim (Bool-cases (text_eq password a.secret)) [
    | inl right ↦ inr (inl ((text_eq_iff _ _).0 right, rw (free, right)))
    | inr wrong ↦ elim (Bool-cases (leb max_failures_per_window (length (window now a.failures)))) [
      | inl full ↦ inr (inr (inl (leb→le _ _ full, rw (free, wrong, full))))
      | inr room ↦ inr (inr (inr (ground arith, rw (free, wrong, room))))
    ]
  ]
]

-- A check keeps the invariant, that fewer than five failures are remembered and that they all lie in
-- the past, as long as the clock does not go back.
pub check-IsValid :
    (password : Text) (t now : ℕ) (a : Authenticator)
    → IsValid t a
    → t ≤ now
    → IsValid now (check password now a).0
check-IsValid password t now a v h = elim (check-cases password now a) [
  | inl (_, e) ↦ rw e (record { few = v.few; past = past_later t now a.failures h v.past })
  | inr (inl (_, e)) ↦ rw e (record { few = omega arith; past = tt })
  | inr (inr (inl (_, e))) ↦ rw e (record { few = omega arith; past = tt })
  | inr (inr (inr (room, e))) ↦
      rw e (record { few = room; past = past-window t now a.failures h v.past })
]

-- A check answers "locked out" exactly during a lockout, whatever the password; "ok" exactly
-- outside of one and with the secret; and "bad credentials" exactly outside of one and with another
-- password. The secret stays.
pub check_verdict :
    (password : Text) (now : ℕ) (a : Authenticator)
    → (((check password now a).1 ≡ auth_locked_out) ↔ (now < a.locked_until))
      × (((check password now a).1 ≡ auth_ok) ↔ ((a.locked_until ≤ now) × (password ≡ a.secret)))
      × (((check password now a).1 ≡ auth_bad_credentials)
          ↔ ((a.locked_until ≤ now) × (password ≢ a.secret)))
      × ((check password now a).0.secret ≡ a.secret)
unfolding check record_failure
check_verdict password now a =
    let same = text_eq_iff password a.secret in
    (ground (arith, same), ground (arith, same), ground (arith, same), ground (arith, same))
