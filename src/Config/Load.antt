-- ===== src/Config/Load.antt =====
-- `Load` of internal/config/config.go: which file is read, and what is refused before it is.
use dddns.Prelude.{not, ◌&&◌, Option, none, some, []}
use dddns.Prelude.Tests.{◌==◌, if◌then◌else◌}
use dddns.Prelude.Int.{pos}
use dddns.Prelude.Result.{Result, ok, err}
use dddns.Prelude.Text.{Text, codes, is_empty, has_suffix}
use dddns.Files.{File, Files, config_file_perm}
use dddns.Config.{Config}
use dddns.Config.Secure.{
  Yaml, Faults, SecureError, stat_failed, read_failed, insecure_permissions, parse_failed,
  load_secure,
}
use dddns.Crypto.{Primitives, Device}

-- The values that the file may override; the cache path is that of the profile.
abbrev pub default_config : Text → Config
default_config cache_path = record {
  aws_region = codes "us-east-1";
  aws_access_key = [];
  aws_secret_key = [];
  hosted_zone_id = [];
  hostname = [];
  ttl = pos 300;
  ip_cache_file = cache_path;
  ip_source = [];
  update_interval = [];
  update_timeout = [];
  server = none;
}

-- `merge` is `yaml.Unmarshal` into a record that holds the defaults.
module _ (y : Yaml) (p : Primitives) (d : Device) (merge : Config → Text → Option Config) where
  unfoldable pub read_plain : Faults → Config → File → Result SecureError Config
  read_plain f defaults file =
      if not (file.mode == config_file_perm)
      then err (insecure_permissions file.mode)
      else elim f.read [
        | some e ↦ err (read_failed e)
        | none ↦ elim (merge defaults file.content) [ none ↦ err parse_failed | some c ↦ ok c ]
      ]

  unfoldable pub load_plain : Faults → Config → Text → Files → Result SecureError Config
  load_plain f defaults path fs = if is_empty path then ok defaults else elim f.stat [
    | some e ↦ err (stat_failed e)
    | none ↦ elim (fs path) [ none ↦ ok defaults | some file ↦ read_plain f defaults file ]
  ]

  -- `active` is the path that `SetActivePath` has recorded.
  unfoldable pub load :
      Faults → (cache_path : Result Text Text) → (active : Text) → Files → Result SecureError Config
  unfolding load_plain read_plain
  load f cache_path active fs =
      if not (is_empty active) && has_suffix (codes ".secure") active
      then load_secure y p d f active fs
      else elim cache_path [
        | err e ↦ err (stat_failed e)
        | ok path ↦ load_plain f (default_config path) active fs
      ]
