-- ===== src/Tests/Auth.antt =====
-- Checks of a password at concrete times.
use dddns.Prelude.{ℕ, ◌≤◌, ◌≡◌, refl, List, [], ◌∷◌, arith}
use dddns.Prelude.Text.{Text, codes, text_eq}
use dddns.Server.Auth.{Authenticator, check, record_failure}
use dddns.Server.Auth.Lockout.{run, guesses, guesses_bound}

abbrev pub fresh : Authenticator
fresh = record { secret = codes "s3"; failures = []; locked_until = 0 }

abbrev locked : Authenticator
locked = record { secret = codes "s3"; failures = []; locked_until = 1000 }

abbrev pub tried : List (Text × ℕ)
tried =
    (codes "a", 100)
    ∷ (codes "b", 101)
    ∷ (codes "c", 102)
    ∷ (codes "d", 103)
    ∷ (codes "e", 104)
    ∷ (codes "f", 105)
    ∷ []

five_then_locked : guesses (run tried fresh).1 ≡ 5
unfolding run check record_failure text_eq
five_then_locked = refl

-- A wrong password, then the secret.
abbrev earlier : List (Text × ℕ)
earlier = (codes "a", 50) ∷ (codes "s3", 60) ∷ []

guesses_bound_example : guesses (run tried (run earlier fresh).0).1 ≤ 5
guesses_bound_example = guesses_bound 100 earlier tried fresh (omega arith) (omega arith)
