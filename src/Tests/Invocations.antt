-- ===== src/Tests/Invocations.antt =====
-- Invocations of the Lambda function.
use dddns.Prelude.{ℕ, ◌+◌, ◌<◌, ◌≡◌, ◌⊎◌, refl, List, [], ◌∷◌, none, some}
use dddns.Prelude.Result.{Result, ok}
use dddns.Prelude.Text.{Text, codes}
use dddns.Net.{v4}
use dddns.Lambda.SecretCache.{SsmError, SecretCache, get}
use dddns.Lambda.SecretCache.Fresh.{run, Answered, get_fresh}
use dddns.Lambda.Handler.{Request, State, Env, handle}
use dddns.Lambda.Handler.Guards.{Verdict, handle-Verdict}

abbrev env : Env
env = record {
  hostname = codes "home.example.com";
  parse_ip = λ _. some (v4 203 0 113 7);
  decode_base64 = λ _. some (codes "user:s3");
  now = 1000;
  fetched = 1001;
  fetch = ok (codes "s3");
  update = λ _. none;
}

abbrev request : Request
request = record {
  source_ip = codes "203.0.113.7";
  headers = (codes "authorization", codes "Basic dXNlcjpzMw==") ∷ [];
  hostname = codes "Home.example.com";
  dry_run = [];
  myip = [];
}

abbrev empty_cache : SecretCache
empty_cache = record { value = []; fetched_at = 0; ttl = 300 }

abbrev cold : State
cold = record { cache = empty_cache; sent = [] }

handle-Verdict_example : Verdict env request cold (handle env request cold)
handle-Verdict_example = handle-Verdict env request cold

abbrev earlier : List (ℕ × ℕ × Result SsmError Text)
earlier = (100, 101, ok (codes "old")) ∷ (350, 351, ok (codes "new")) ∷ []

still_old : (get 390 391 (ok (codes "new")) (run earlier empty_cache)).1 ≡ ok (codes "old")
unfolding get run
still_old = refl

get_fresh_example :
    (◌≡◌ {A = Result SsmError Text} (ok (codes "new")) (ok (codes "old")))
    ⊎ ((t : ℕ) × Answered t (codes "old") earlier × (390 < t + 300))
get_fresh_example =
    get_fresh earlier 390 391 (ok (codes "new")) empty_cache (codes "old") refl still_old
