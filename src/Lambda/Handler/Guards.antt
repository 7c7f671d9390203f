-- ===== src/Lambda/Handler/Guards.antt =====
-- When a request to deploy/aws-lambda/handler.go reaches Route53, and with which address.
use dddns.Prelude.{◌≡◌, ◌≢◌, inl, inr, true, false, [], ◌∷◌, none, some, arith}
use dddns.Prelude.Tests.{Bool-cases, Option-cases}
use dddns.Prelude.Result.{ok, Result-cases}
use dddns.Prelude.Text.{
  Text, text_eq, text_eq_iff, is_empty, equal_fold, trim_space, eq-nil_of_empty,
  ne-nil_of_not_empty,
}
use dddns.Lambda.SecretCache.{SecretCache, get}
use dddns.Lambda.Handler.{
  Request, Response, Env, State, is_dry_run, parse_basic_auth, publish, match_host, compare_secret,
  authenticate, handle,
}
use mathlib.Core.Path.{subst}

-- All that stands between a request and an upsert.
pub record Authorised (env : Env) (r : Request) (s : State) : Type 0 where
  pub sender : r.source_ip ≢ []
  pub address : env.parse_ip r.source_ip ≢ none
  pub user : Text
  pub password : Text
  pub given : parse_basic_auth env r.headers ≡ some (user, password)
  pub secret : (get env.now env.fetched env.fetch s.cache).1 ≡ ok password
  pub named : trim_space r.hostname ≢ []
  pub host : equal_fold (trim_space r.hostname) env.hostname ≡ true
  pub real : is_dry_run r.dry_run ≡ false

module _ (env : Env) (r : Request) (s : State) where
  -- What was sent to Route53 before and after a request: the address of the sender, once, with all
  -- guards passed, or nothing, and some guard did not pass.
  pub data Verdict (x : State × Response) : Type 0 where
    published : Authorised env r s → x.0.sent ≡ r.source_ip ∷ s.sent → Verdict x
    refused : ¬ Authorised env r s → x.0.sent ≡ s.sent → Verdict x

  publish-Verdict :
      (c : SecretCache)
      → (is_dry_run r.dry_run ≡ false → Authorised env r s)
      → Verdict (publish env r (record s { cache = c }))
  unfolding publish
  publish-Verdict c good = elim (Bool-cases (is_dry_run r.dry_run)) [
    | inl dry ↦ refused (λ a. ground (arith, a.real)) (ground arith)
    | inr real ↦ published (good real) (ground arith)
  ]

  match_host-Verdict :
      (c : SecretCache)
      → (trim_space r.hostname ≢ []
          → equal_fold (trim_space r.hostname) env.hostname ≡ true
          → is_dry_run r.dry_run ≡ false
          → Authorised env r s)
      → Verdict (match_host env r (record s { cache = c }))
  unfolding match_host
  match_host-Verdict c good = elim (Bool-cases (is_empty (trim_space r.hostname))) [
    | inl nothing ↦ refused (λ a. a.named (eq-nil_of_empty _ nothing)) (ground arith)
    | inr given ↦ elim (Bool-cases (equal_fold (trim_space r.hostname) env.hostname)) [
      | inr other ↦ refused (λ a. ground (arith, a.host)) (ground arith)
      | inl same ↦
          subst Verdict (ground arith) (publish-Verdict c (good (ne-nil_of_not_empty _ given) same))
    ]
  ]

  authenticate-Verdict :
      r.source_ip ≢ [] → env.parse_ip r.source_ip ≢ none → Verdict (authenticate env r s)
  unfolding authenticate compare_secret
  authenticate-Verdict sender address = elim (Option-cases (parse_basic_auth env r.headers)) [
    | inl missing ↦ refused (λ a. ground (arith, a.given)) (ground arith)
    | inr ((user, pass), given) ↦
        elim (Result-cases (get env.now env.fetched env.fetch s.cache).1) [
          | inr (e, bad) ↦ refused (λ a. ground (arith, a.secret)) (ground arith)
          | inl (expected, good) ↦ elim (Bool-cases (text_eq pass expected)) [
            | inr wrong ↦
                refused (λ a. ground (arith, a.secret, a.given, text_eq_iff pass expected))
                  (ground arith)
            | inl right ↦ subst Verdict (ground arith) (
                match_host-Verdict (get env.now env.fetched env.fetch s.cache).0 λ named host real.
                  record {
                    sender = sender;
                    address = address;
                    user = user;
                    password = pass;
                    given = given;
                    secret = rw ((text_eq_iff pass expected).0 right) good;
                    named = named;
                    host = host;
                    real = real;
                  })
          ]
        ]
  ]

-- Route53 is asked for an upsert exactly if the gateway gives a sender's address that parses, the
-- request carries the secret that the cache gives, names the configured host and is no dry run; and
-- the upsert is of the sender's address, once. What the client claims as its address is not read.
pub handle-Verdict : (env : Env) (r : Request) (s : State) → Verdict env r s (handle env r s)
unfolding handle
handle-Verdict env r s = elim (Bool-cases (is_empty r.source_ip)) [
  | inl nothing ↦ refused (λ a. a.sender (eq-nil_of_empty _ nothing)) (ground arith)
  | inr sender ↦ elim (Option-cases (env.parse_ip r.source_ip)) [
    | inl bad ↦ refused (λ a. a.address bad) (ground arith)
    | inr (ip, good) ↦
        subst (Verdict env r s) (ground arith)
          (authenticate-Verdict env r s (ne-nil_of_not_empty _ sender) (λ e. ground arith))
  ]
]
