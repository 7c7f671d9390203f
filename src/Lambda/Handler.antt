-- ===== src/Lambda/Handler.antt =====
-- deploy/aws-lambda/handler.go: one dyndns request behind the gateway. `net.ParseIP`, base64 and the
-- Route53 client are parameters.
pub mod Guards
use dddns.Prelude.{
  ℕ, ◌≡◌, refl, Bool, true, false, not, ◌&&◌, ◌||◌, List, [], ◌∷◌, ◌++◌, map, Option, none, some,
}
use dddns.Prelude.Tests.{if◌then◌else◌}
use dddns.Prelude.Result.{Result, ok, err}
use dddns.Prelude.Text.{
  Text, codes, text_eq, is_empty, equal_fold, cut_prefix, split_once, trim_space, to_lower_ascii,
}
use dddns.Net.{Ip}
use dddns.Lambda.SecretCache.{SsmError, SecretCache, get}

pub record Request : Type 0 where
  pub source_ip : Text
  pub headers : List (Text × Text)
  -- The parameters of the query; an absent one is "".
  pub hostname : Text
  pub dry_run : Text
  pub myip : Text

-- `dyndns`: the status is always 200.
pub record Response : Type 0 where
  pub status : ℕ
  pub body : Text

unfoldable pub dyndns : Text → Response
dyndns body = record { status = 200; body = body ++ 10 ∷ [] }

-- `isDryRun`.
unfoldable pub is_dry_run : Text → Bool
is_dry_run v =
    let s = map to_lower_ascii (trim_space v) in
    text_eq s (codes "true")
    || (text_eq s (codes "1") || (text_eq s (codes "yes") || text_eq s (codes "on")))

-- The value of the first header by this name; Go's order over a map is any order.
find_header : List (Text × Text) → Text
find_header [] = []
find_header ((k, v) ∷ headers) =
    let rest = find_header headers in if equal_fold k (codes "Authorization") then v else rest

pub record Env : Type 0 where
  pub hostname : Text
  pub parse_ip : Text → Option Ip
  pub decode_base64 : Text → Option Text
  pub now : ℕ
  -- The time behind a fetch of the secret.
  pub fetched : ℕ
  pub fetch : Result SsmError Text
  pub update : Text → Option Text

unfoldable pub parse_basic_auth : Env → List (Text × Text) → Option (Text × Text)
unfolding find_header
parse_basic_auth env headers = elim (cut_prefix (codes "Basic ") (find_header headers)) [
  | none ↦ none
  | some encoded ↦ elim (env.decode_base64 encoded) [
    | none ↦ none
    | some decoded ↦ split_once b':' decoded
  ]
]

-- The secret cache, and the addresses sent to Route53, the latest first.
pub record State : Type 0 where
  pub cache : SecretCache
  pub sent : List Text

-- The last steps: the dry run, or the upsert of the address of the sender.
unfoldable pub publish : Env → Request → State → State × Response
publish env r s =
    if is_dry_run r.dry_run
    then (s, dyndns (codes "good " ++ (r.source_ip ++ codes " (dry-run)")))
    else let s' = record s { sent = r.source_ip ∷ s.sent } in
      elim (env.update r.source_ip) [
        | some e ↦ (s', dyndns (codes "dnserr " ++ e))
        | none ↦ (s', dyndns (codes "good " ++ r.source_ip))
      ]

unfoldable pub match_host : Env → Request → State → State × Response
match_host env r s =
    let hostname = trim_space r.hostname in
    if is_empty hostname
    then (s, dyndns (codes "notfqdn"))
    else if not (equal_fold hostname env.hostname)
    then (s, dyndns (codes "nohost"))
    else publish env r s

-- The comparison with the secret that the cache gives.
unfoldable pub compare_secret :
    Env → Request → Text → State → Result SsmError Text → State × Response
compare_secret env r pass s (err e) = (s, dyndns (codes "dnserr ssm"))
compare_secret env r pass s (ok expected) =
    if not (text_eq pass expected) then (s, dyndns (codes "badauth")) else match_host env r s

unfoldable pub authenticate : Env → Request → State → State × Response
authenticate env r s = elim (parse_basic_auth env r.headers) [
  | none ↦ (s, dyndns (codes "badauth"))
  | some (user, pass) ↦
      let (c, expected, asked) = get env.now env.fetched env.fetch s.cache in
      compare_secret env r pass (record s { cache = c }) expected
]

unfoldable pub handle : Env → Request → State → State × Response
handle env r s =
    if is_empty r.source_ip
    then (s, dyndns (codes "dnserr no source ip"))
    else elim (env.parse_ip r.source_ip) [
      | none ↦ (s, dyndns (codes "dnserr source ip unparseable"))
      | some ip ↦ authenticate env r s
    ]
