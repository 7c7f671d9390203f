-- ===== src/Lambda/SecretCache/Fresh.antt =====
-- How old a secret of the cache in deploy/aws-lambda/handler.go can be.
use dddns.Prelude.{
  ◌&&◌, ◌∙◌, ap, sym, ℕ, ◌+◌, ◌<◌, ◌≡◌, ◌≢◌, ◌⊎◌, inl, inr, refl, List, [], ◌∷◌, true, false, arith,
}
use dddns.Prelude.Result.{Result, ok, err}
use dddns.Prelude.Text.{Text, is_empty}
use dddns.Lambda.SecretCache.{SsmError, SecretCache, get}
use dddns.Prelude.Tests.{Bool-cases}
use dddns.Prelude.{not}
use dddns.Prelude.Tests.{ltb}
use mathlib.Core.Path.{subst}
use dddns.Prelude.Text.{not_empty_iff}
use dddns.Prelude.Result.{Result-cases}

-- The cache after a sequence of requests, each with its time, the time behind the fetch, and the
-- store's answer.
unfoldable pub run : List (ℕ × ℕ × Result SsmError Text) → SecretCache → SecretCache
run [] c = c
run ((now, later, fetch) ∷ rest) c = run rest (get now later fetch c).0

-- The store had `v` to answer in a sequence of requests, and `t` was the time behind that answer.
abbrev pub Answered : ℕ → Text → List (ℕ × ℕ × Result SsmError Text) → Type 0
Answered t v [] = ⊥
Answered t v ((now, later, fetch) ∷ rest) = ((later ≡ t) × (fetch ≡ ok v)) ⊎ Answered t v rest

-- The three ways through the cache.
pub get-cases :
    (now later : ℕ) (fetch : Result SsmError Text) (c : SecretCache)
    → ((c.value ≢ [])
        × (now < c.fetched_at + c.ttl)
        × (get now later fetch c ≡ (c, ok c.value, false)))
      ⊎ ((e : SsmError) × (get now later fetch c ≡ (c, err e, true)))
      ⊎ ((v : Text) × (fetch ≡ ok v)
          × (get now later fetch c ≡ (record c { value = v; fetched_at = later }, ok v, true)))
unfolding get
get-cases now later fetch c =
    elim (Bool-cases (not (is_empty c.value) && ltb now (c.fetched_at + c.ttl))) [
      | inl hit ↦ inl ((not_empty_iff c.value).0 (ground arith), ground arith, rw hit)
      | inr miss ↦ elim (Result-cases fetch) [
        | inl (v, good) ↦ inr (inr (v, good, rw (miss, good)))
        | inr (e, bad) ↦ inr (inl (e, rw (miss, bad)))
      ]
    ]

-- The cache `b` holds what `c` held before, or an answer of the store with its time.
abbrev Holds : List (ℕ × ℕ × Result SsmError Text) → SecretCache → SecretCache → Type 0
Holds reqs c b =
    (b.ttl ≡ c.ttl)
    × (((b.value ≡ c.value) × (b.fetched_at ≡ c.fetched_at)) ⊎ Answered b.fetched_at b.value reqs)

Holds-skip :
    (x : ℕ × ℕ × Result SsmError Text) (reqs : List (ℕ × ℕ × Result SsmError Text))
    (c b : SecretCache)
    → Holds reqs c b
    → Holds (x ∷ reqs) c b
Holds-skip x reqs c b (same, inl kept) = (same, inl kept)
Holds-skip x reqs c b (same, inr old) = (same, inr (inr old))

Holds-fetch :
    (now later : ℕ) (fetch : Result SsmError Text) (reqs : List (ℕ × ℕ × Result SsmError Text))
    (c b : SecretCache) (v : Text)
    → fetch ≡ ok v
    → Holds reqs (record c { value = v; fetched_at = later }) b
    → Holds ((now, later, fetch) ∷ reqs) c b
Holds-fetch now later fetch reqs c b v good (same, inl (value, time)) =
    (same, inr (inl (sym time, good ∙ ap ok (sym value))))
Holds-fetch now later fetch reqs c b v good (same, inr old) = (same, inr (inr old))

run-Holds :
    (reqs : List (ℕ × ℕ × Result SsmError Text)) (c : SecretCache) → Holds reqs c (run reqs c)
unfolding run
run-Holds [] c = (refl, inl (refl, refl))
run-Holds ((now, later, fetch) ∷ rest) c =
    let goal = Holds ((now, later, fetch) ∷ rest) c in
    elim (get-cases now later fetch c) [
      | inl (_, _, e) ↦
          subst goal (ap (λ x. run rest x.0) (sym e))
            (Holds-skip (now, later, fetch) rest c _ (run-Holds rest c))
      | inr (inl (_, e)) ↦
          subst goal (ap (λ x. run rest x.0) (sym e))
            (Holds-skip (now, later, fetch) rest c _ (run-Holds rest c))
      | inr (inr (v, good, e)) ↦
          let c' : SecretCache = record c { value = v; fetched_at = later } in
          subst goal (ap (λ x. run rest x.0) (sym e))
            (Holds-fetch now later fetch rest c _ v good (run-Holds rest c'))
    ]

-- The secret that a request is compared with was the store's answer to its own fetch or to that of an
-- earlier request of the sequence, and then the time since that answer is less than the time to
-- live. The cache starts empty.
pub get_fresh :
    (reqs : List (ℕ × ℕ × Result SsmError Text)) (now later : ℕ) (fetch : Result SsmError Text)
    (c : SecretCache) (v : Text)
    → c.value ≡ []
    → (get now later fetch (run reqs c)).1 ≡ ok v
    → ((fetch ≡ ok v) ⊎ ((t : ℕ) × Answered t v reqs × (now < t + c.ttl)))
get_fresh reqs now later fetch c v start h = elim (get-cases now later fetch (run reqs c)) [
  | inl (there, young, e) ↦
      let (same, held) = run-Holds reqs c in
      let value : (run reqs c).value ≡ v = ground arith in
      elim held [
        | inl (kept, _) ↦ absurd (there (kept ∙ start))
        | inr old ↦ inr (
          (run reqs c).fetched_at,
          subst (λ x. Answered (run reqs c).fetched_at x reqs) value old,
          omega arith,
        )
      ]
  | inr (inl (_, e)) ↦ absurd (ground arith)
  | inr (inr (v', good, e)) ↦ inl (ground arith)
]
