-- ===== src/Server/Auth/Lockout.antt =====
-- Sequences of checks against internal/server/auth.go: how many guesses get through.
use dddns.Prelude.{ℕ, ◌+◌, ◌≤◌, ◌<◌, ◌≡◌, refl, [], ◌∷◌, arith, List, inl, inr}
use dddns.Prelude.Tests.{leb, lt→ltb}
use dddns.Prelude.Lists.{length, keep, All, length-keep}
use dddns.Prelude.Text.{Text}
use dddns.Server.Auth.Window.{check-cases, check_verdict}
use dddns.Prelude.{sym}
use dddns.Server.Auth.{
  max_failures_per_window, failure_window, lockout_duration, Authenticator, AuthResult, auth_ok,
  auth_bad_credentials, auth_locked_out, window, check,
}

-- The state after a sequence of checks, each a password and its time, and their answers.
unfoldable pub run : List (Text × ℕ) → Authenticator → Authenticator × List AuthResult
run [] a = (a, [])
run ((password, now) ∷ tries) a =
    let (a', r) = check password now a in let (b, rs) = run tries a' in (b, r ∷ rs)

-- How many of the answers, up to the first success, say that a password was compared and found wrong.
abbrev pub guesses : List AuthResult → ℕ
guesses [] = 0
guesses (auth_bad_credentials ∷ rs) = 1 + guesses rs
guesses (auth_ok ∷ rs) = 0
guesses (auth_locked_out ∷ rs) = guesses rs

-- During a lockout every answer is "locked out" and the state stays, also for the right password.
pub run_locked :
    (tries : List (Text × ℕ)) (a : Authenticator)
    → All (λ x. x.1 < a.locked_until) tries
    → ((run tries a).0 ≡ a) × All (λ r. r ≡ auth_locked_out) (run tries a).1
unfolding run check
run_locked [] a h = (refl, tt)
run_locked ((password, now) ∷ tries) a (h, hs) =
    rw (lt→ltb _ _ h) (let (same, rest) = run_locked tries a hs in (same, (refl, rest)))

guesses_none : (rs : List AuthResult) → All (λ r. r ≡ auth_locked_out) rs → guesses rs ≡ 0
guesses_none [] h = refl
guesses_none (r ∷ rs) (h, hs) = rw h (guesses_none rs hs)

-- The failures on record since `t`.
abbrev since : ℕ → List ℕ → ℕ
since t fs = length (keep (λ x. leb t x) fs)

since-window :
    (t now : ℕ) (fs : List ℕ)
    → t ≤ now
    → now < t + failure_window
    → since t (window now fs) ≡ since t fs + 1
since-window t now [] h k = ground arith
since-window t now (x ∷ fs) h k = ground (arith, since-window t now fs h k)

module _ (t : ℕ) where
  abbrev InWindow : Text × ℕ → Type 0
  InWindow x = (t ≤ x.1) × (x.1 < t + failure_window)

  All-before :
      (m : ℕ) (tries : List (Text × ℕ))
      → t + failure_window ≤ m
      → All InWindow tries
      → All (λ x. x.1 < m) tries
  All-before m [] h _ = tt
  All-before m (x ∷ tries) h (hx, hs) = (omega arith, All-before m tries h hs)

  guesses-run :
      (tries : List (Text × ℕ)) (a : Authenticator)
      → All InWindow tries
      → length a.failures < max_failures_per_window
      → guesses (run tries a).1 + since t a.failures ≤ max_failures_per_window
  unfolding run
  guesses-run [] a h few = omega (arith, length-keep (λ x. leb t x) a.failures)
  guesses-run ((password, now) ∷ tries) a ((lo, hi), hs) few = elim (check-cases password now a) [
    | inl (_, e) ↦ rw e (guesses-run tries a hs few)
    | inr (inl (_, e)) ↦ rw e (omega (arith, length-keep (λ x. leb t x) a.failures))
    | inr (inr (inl (_, e))) ↦
        let b : Authenticator = record a { failures = []; locked_until = now + lockout_duration } in
        let silent = run_locked tries b (All-before b.locked_until tries (omega arith) hs) in
        rw e (
          omega
            (arith, guesses_none (run tries b).1 silent.1, length-keep (λ x. leb t x) a.failures))
    | inr (inr (inr (room, e))) ↦ rw e (
        omega (
          arith,
          since-window t now a.failures lo hi,
          guesses-run tries (record a { failures = window now a.failures }) hs room,
        ))
  ]

-- Whatever has been tried, fewer than five failures are remembered.
run-few :
    (tries : List (Text × ℕ)) (a : Authenticator)
    → length a.failures < max_failures_per_window
    → length (run tries a).0.failures < max_failures_per_window
unfolding run
run-few [] a few = few
run-few ((password, now) ∷ tries) a few = elim (check-cases password now a) [
  | inl (_, e) ↦ rw e (run-few tries a few)
  | inr (inl (_, e)) ↦ rw e (run-few tries (record a { failures = [] }) (omega arith))
  | inr (inr (inl (_, e))) ↦ rw e (
      run-few tries (record a { failures = []; locked_until = now + lockout_duration })
        (omega arith))
  | inr (inr (inr (room, e))) ↦
      rw e (run-few tries (record a { failures = window now a.failures }) room)
]

-- Whatever has been tried before, of right passwords and wrong ones: within any minute, at most five
-- wrong passwords are compared with the secret before the next success, however many are tried and in
-- whatever order their times come. Fewer than five failures are remembered at the start.
pub guesses_bound :
    (t : ℕ) (before tries : List (Text × ℕ)) (a : Authenticator)
    → All (λ x. (t ≤ x.1) × (x.1 < t + 60_000_000_000)) tries
    → length a.failures < 5
    → guesses (run tries (run before a).0).1 ≤ 5
guesses_bound t before tries a h few =
    omega (arith, guesses-run t tries (run before a).0 h (run-few before a few))

run-locked_until :
    (t : ℕ) (tries : List (Text × ℕ)) (a : Authenticator)
    → All (λ x. x.1 ≤ t) tries
    → a.locked_until ≤ t + lockout_duration
    → ((run tries a).0.locked_until ≤ t + lockout_duration) × ((run tries a).0.secret ≡ a.secret)
unfolding run
run-locked_until t [] a h low = (low, refl)
run-locked_until t ((password, now) ∷ tries) a (h, hs) low = elim (check-cases password now a) [
  | inl (_, e) ↦ rw e (run-locked_until t tries a hs low)
  | inr (inl (_, e)) ↦ rw e (run-locked_until t tries (record a { failures = [] }) hs low)
  | inr (inr (inl (_, e))) ↦ rw e (
      run-locked_until t tries (record a { failures = []; locked_until = now + lockout_duration })
        hs (omega arith))
  | inr (inr (inr (_, e))) ↦
      rw e (run-locked_until t tries (record a { failures = window now a.failures }) hs low)
]

-- Whatever has been tried up to a time, and in whatever order: the secret is accepted again once the
-- duration of a lockout has gone by since then. No lockout lasts longer than that at the start.
pub check-run :
    (t now : ℕ) (tries : List (Text × ℕ)) (a : Authenticator)
    → All (λ x. x.1 ≤ t) tries
    → a.locked_until ≤ t + lockout_duration
    → t + lockout_duration ≤ now
    → (check a.secret now (run tries a).0).1 ≡ auth_ok
check-run t now tries a h low late =
    let (free, same) = run-locked_until t tries a h low in
    (check_verdict a.secret now (run tries a).0).1.1 (omega (arith, free), sym same)
