-- ===== src/Config.antt =====
-- internal/config/config.go: the configuration, its defaults, and the checks before it is used.
pub mod Validate
pub mod Secure
pub mod Load
pub mod Migrate
pub mod Plain
use dddns.Prelude.{
  ℕ, ◌*◌, ◌≡◌, refl, Bool, true, false, not, ◌||◌, List, [], ◌∷◌, Option, none, some,
}
use dddns.Prelude.Tests.{if◌then◌else◌}
use dddns.Prelude.Int.{ℤ, pos, is_positive}
use dddns.Prelude.Result.{Result, ok, err, ◌>>=◌, ◌>>◌, guard}
use dddns.Prelude.Text.{Text, codes, text_eq, is_empty}

pub record ServerConfig : Type 0 where
  pub bind : Text
  pub shared_secret : Text
  pub allowed_cidrs : List Text
  pub audit_log : Text
  pub wan_interface : Text

pub record Config : Type 0 where
  pub aws_region : Text
  pub aws_access_key : Text
  pub aws_secret_key : Text
  pub hosted_zone_id : Text
  pub hostname : Text
  pub ttl : ℤ
  pub ip_cache_file : Text
  pub ip_source : Text
  pub update_interval : Text
  pub update_timeout : Text
  pub server : Option ServerConfig

abbrev pub default_update_interval : Text
default_update_interval = codes "*/30 * * * *"

-- 30 seconds, in nanoseconds.
abbrev pub default_update_timeout : ℤ
default_update_timeout = pos (30 * 1_000_000_000)

unfoldable pub update_interval_or_default : Config → Text
update_interval_or_default c =
    if not (is_empty c.update_interval) then c.update_interval else default_update_interval

pub data ConfigError : Type 0 where
  bind_required : ConfigError
  bind_not_host_port : Text → ConfigError
  secret_required cidrs_required : ConfigError
  bad_cidr : Text → ConfigError
  access_key_required secret_key_required zone_required hostname_required ttl_not_positive :
      ConfigError
  bad_ip_source : Text → ConfigError
  bad_timeout timeout_not_positive : Text → ConfigError

-- The four values that the `switch` on `c.IPSource` lists.
unfoldable pub is_known_source : Text → Bool
is_known_source s =
    is_empty s
    || (text_eq s (codes "auto") || (text_eq s (codes "local") || text_eq s (codes "remote")))

-- `len(cidrs) == 0`.
unfoldable pub no_cidrs : List Text → Bool
no_cidrs [] = true
no_cidrs (c ∷ cs) = false

-- `time.ParseDuration`, `net.SplitHostPort` and `net.ParseCIDR` are parameters: the checks use only
-- whether they accept, and the sign of a duration.
module _ (parse_duration : Text → Option ℤ) where
  unfoldable pub update_timeout_or_default : Config → ℤ
  update_timeout_or_default c =
      if is_empty c.update_timeout
      then default_update_timeout
      else elim (parse_duration c.update_timeout) [
        | none ↦ default_update_timeout
        | some d ↦ if is_positive d then d else default_update_timeout
      ]

  unfoldable pub check_timeout : Text → Result ConfigError (Unit {0})
  check_timeout [] = ok tt
  check_timeout (c ∷ s) = elim (parse_duration (c ∷ s)) [
    | none ↦ err (bad_timeout (c ∷ s))
    | some d ↦ guard (is_positive d) (timeout_not_positive (c ∷ s))
  ]

  -- `Config.Validate`.
  unfoldable pub validate : Config → Result ConfigError (Unit {0})
  validate c = do
    guard (not (is_empty c.aws_access_key)) access_key_required
    guard (not (is_empty c.aws_secret_key)) secret_key_required
    guard (not (is_empty c.hosted_zone_id)) zone_required
    guard (not (is_empty c.hostname)) hostname_required
    guard (is_positive c.ttl) ttl_not_positive
    guard (is_known_source c.ip_source) (bad_ip_source c.ip_source)
    check_timeout c.update_timeout

module _ (split_host_port : Text → Option (Text × Text)) {N : Type 0}
    (parse_cidr : Text → Option N) where
  unfoldable pub check_cidrs : List Text → Result ConfigError (Unit {0})
  check_cidrs [] = ok tt
  check_cidrs (c ∷ cs) = elim (parse_cidr c) [ none ↦ err (bad_cidr c) | some n ↦ check_cidrs cs ]

  unfoldable pub check_bind : Text → Result ConfigError (Unit {0})
  check_bind bind = elim (split_host_port bind) [
    | none ↦ err (bind_not_host_port bind)
    | some hp ↦ ok tt
  ]

  -- `ServerConfig.Validate`.
  unfoldable pub validate_server : ServerConfig → Result ConfigError (Unit {0})
  validate_server s = do
    guard (not (is_empty s.bind)) bind_required
    check_bind s.bind
    guard (not (is_empty s.shared_secret)) secret_required
    guard (not (no_cidrs s.allowed_cidrs)) cidrs_required
    check_cidrs s.allowed_cidrs
