-- ===== src/Server/Auth.antt =====
-- internal/server/auth.go: the password check and its sliding-window lockout. A time is a number of
-- nanoseconds; the mutex makes each check one step.
pub mod Window
pub mod Lockout
use dddns.Prelude.{ℕ, ◌+◌, ◌*◌, ◌≡◌, refl, Bool, true, false, List, [], ◌∷◌, ◌++◌, arith, Option}
use dddns.Prelude.Tests.{ltb, leb, if◌then◌else◌}
use dddns.Prelude.Lists.{length, keep}
use dddns.Prelude.Text.{Text, text_eq}

abbrev pub second : ℕ
second = 1_000_000_000

abbrev pub max_failures_per_window : ℕ
max_failures_per_window = 5

abbrev pub failure_window : ℕ
failure_window = 60 * second

abbrev pub lockout_duration : ℕ
lockout_duration = 5 * (60 * second)

pub data AuthResult : Type 0 where
  auth_ok auth_bad_credentials auth_locked_out : AuthResult

pub record Authenticator : Type 0 where
  pub secret : Text
  pub failures : List ℕ
  pub locked_until : ℕ

-- The zero `time.Time` of `lockedUntil` is the number 0.
unfoldable pub new_authenticator : Text → Authenticator
new_authenticator secret = record { secret = secret; failures = []; locked_until = 0 }

-- `t.After(now.Add(-FailureWindow))`, with the subtraction moved to the other side.
abbrev pub is_recent : ℕ → ℕ → Bool
is_recent now t = ltb now (t + failure_window)

-- The failures that the window keeps after one more at `now`.
abbrev pub window : ℕ → List ℕ → List ℕ
window now failures = keep (is_recent now) (failures ++ now ∷ [])

-- The end of `Check`, where the password does not match.
unfoldable pub record_failure : ℕ → Authenticator → Authenticator
record_failure now a =
    if leb max_failures_per_window (length (window now a.failures))
    then record a { failures = []; locked_until = now + lockout_duration }
    else record a { failures = window now a.failures }

-- `Check(password)` at the time `now`.
unfoldable pub check : Text → ℕ → Authenticator → Authenticator × AuthResult
check password now a =
    if ltb now a.locked_until
    then (a, auth_locked_out)
    else if text_eq password a.secret
    then (record a { failures = [] }, auth_ok)
    else (record_failure now a, auth_bad_credentials)
