-- ===== src/Lambda/Environment.antt =====
-- deploy/aws-lambda/main.go: the configuration from the environment. The reading of a number from
-- text, `fmt.Sscan`, is a parameter.
use dddns.Prelude.{Option, none, some}
use dddns.Prelude.Tests.{if◌then◌else◌}
use dddns.Prelude.Int.{ℤ, pos, is_positive}
use dddns.Prelude.Result.{Result, ok, err, ◌>>=◌}
use dddns.Prelude.Text.{Text, codes, is_empty}

pub record LambdaConfig : Type 0 where
  pub region : Text
  pub access_key : Text
  pub secret_key : Text
  pub session_token : Text
  pub hosted_zone_id : Text
  pub hostname : Text
  pub ssm_secret_param : Text
  pub ttl : ℤ

-- `getenv` gives "" for a variable that is unset; the error is the name of the variable.
module _ (sscan : Text → Option ℤ) (getenv : Text → Text) where
  unfoldable pub required : Text → Result Text Text
  required name = let v = getenv name in if is_empty v then err name else ok v

  unfoldable pub ttl_or_default : Text → ℤ
  ttl_or_default v = if is_empty v then pos 300 else elim (sscan v) [
    | none ↦ pos 300
    | some parsed ↦ if is_positive parsed then parsed else pos 300
  ]

  unfoldable pub load_config : Result Text LambdaConfig
  load_config = do
    region ← required (codes "AWS_REGION")
    access_key ← required (codes "AWS_ACCESS_KEY_ID")
    secret_key ← required (codes "AWS_SECRET_ACCESS_KEY")
    session_token ← required (codes "AWS_SESSION_TOKEN")
    zone ← required (codes "HOSTED_ZONE_ID")
    host ← required (codes "DDDNS_HOSTNAME")
    param ← required (codes "SSM_SECRET_PARAM")
    ok (record {
      region = region;
      access_key = access_key;
      secret_key = secret_key;
      session_token = session_token;
      hosted_zone_id = zone;
      hostname = host;
      ssm_secret_param = param;
      ttl = ttl_or_default (getenv (codes "DDDNS_TTL"));
    })
