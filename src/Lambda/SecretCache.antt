-- ===== src/Lambda/SecretCache.antt =====
-- deploy/aws-lambda/handler.go and ssm.go: the shared secret, kept between invocations for a time.
pub mod Fresh
use dddns.Prelude.{
  ℕ, ◌+◌, ◌*◌, ◌≡◌, refl, Bool, true, false, not, ◌&&◌, Option, none, some, [], ◌∷◌,
}
use dddns.Prelude.Tests.{ltb, ◌==◌, if◌then◌else◌}
use dddns.Prelude.Lists.{take}
use dddns.Prelude.Result.{Result, ok, err}
use dddns.Prelude.Text.{Text, codes, is_empty}

pub data SsmError : Type 0 where
  empty_name empty_value : Text → SsmError
  http_failed read_failed : Text → SsmError
  bad_status : ℕ → SsmError
  undecodable : SsmError

-- What the Parameter Store answers: a transport error, or a status and a body that may fail to
-- read. `decode` is the JSON decoder, which gives the value of the parameter.
pub record SsmReply : Type 0 where
  pub status : ℕ
  pub body : Result Text Text

module _ (decode : Text → Option Text) where
  check_value : Text → Option Text → Result SsmError Text
  check_value name none = err undecodable
  check_value name (some v) = if is_empty v then err (empty_value name) else ok v

  check_reply : Text → SsmReply → Result SsmError Text
  check_reply name r = elim r.body [
    | err e ↦ err (read_failed e)
    | ok raw ↦
        if not (r.status == 200)
        then err (bad_status r.status)
        else check_value name (decode (take 65_536 raw))
  ]

  -- `getParameter`, from the answer to its signed request; the body is read up to 64 KiB.
  unfoldable pub get_parameter : (Text → Result Text SsmReply) → Text → Result SsmError Text
  unfolding check_value check_reply
  get_parameter send name =
      if is_empty name
      then err (empty_name name)
      else elim (send name) [ err e ↦ err (http_failed e) | ok r ↦ check_reply name r ]

pub record SecretCache : Type 0 where
  pub value : Text
  pub fetched_at : ℕ
  pub ttl : ℕ

-- `secretCache.get` at the time `now`, where `fetch` is what the Parameter Store would answer and
-- `later` the time behind its answer; the third part says whether it was asked. A time before the
-- last fetch counts as fresh, as the negative difference does.
unfoldable pub get :
    (now later : ℕ) → Result SsmError Text → SecretCache → SecretCache × Result SsmError Text × Bool
get now later fetch c =
    if not (is_empty c.value) && ltb now (c.fetched_at + c.ttl)
    then (c, ok c.value, false)
    else elim fetch [
      | err e ↦ (c, err e, true)
      | ok v ↦ (record c { value = v; fetched_at = later }, ok v, true)
    ]
