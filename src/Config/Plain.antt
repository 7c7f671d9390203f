-- ===== src/Config/Plain.antt =====
-- The part of internal/config/config.go that writes a plaintext file. YAML is a parameter, and so is
-- which calls of package os fail.
use dddns.Prelude.{Bool, not, [], ◌∷◌, ◌++◌, Option, none, some}
use dddns.Prelude.Tests.{if◌then◌else◌}
use dddns.Prelude.Decimal.{decimal}
use dddns.Prelude.Result.{Result, ok, err}
use dddns.Prelude.Text.{Text, codes}
use dddns.Files.{Files, put, written_file, may_write, config_file_perm}
use dddns.Config.{Config}
use dddns.Config.Load.{default_config}

pub data PlainError : Type 0 where
  marshal_failed mkdir_failed write_failed cache_path_failed : Text → PlainError

-- Which calls fail; a write that fails leaves the content `partial`.
pub record PlainFaults : Type 0 where
  pub root : Bool
  pub mkdir : Option Text
  pub write : Option Text
  pub partial : Text

-- `os.WriteFile` with the mode of a plaintext configuration.
unfoldable pub write_plain :
    PlainFaults → (path content : Text) → Files → Files × Result PlainError (Unit {0})
unfolding written_file may_write
write_plain f path content fs =
    if not (may_write f.root fs path) then (fs, err (write_failed [])) else elim f.write [
      | some e ↦ (
        put fs path (some (written_file fs path f.partial config_file_perm)),
        err (write_failed e),
      )
      | none ↦ (put fs path (some (written_file fs path content config_file_perm)), ok tt)
    ]

unfoldable pub save_plaintext :
    (marshal : Config → Result Text Text)
    → PlainFaults
    → Config
    → Text
    → Files
    → Files × Result PlainError (Unit {0})
save_plaintext marshal f cfg path fs = elim (marshal cfg) [
  | err e ↦ (fs, err (marshal_failed e))
  | ok s ↦ elim f.mkdir [ some e ↦ (fs, err (mkdir_failed e)) | none ↦ write_plain f path s fs ]
]

-- One line `key: "value"` of the template, with the comment behind it.
abbrev setting : (before value after : Text) → Text
setting before value after = before ++ (value ++ (after ++ 10 ∷ []))

-- `FormatConfigYAML`; the values are put in as they are.
unfoldable pub format_config_yaml : Config → Text
unfolding decimal
format_config_yaml c =
    codes "# dddns Configuration\n# AWS Settings (REQUIRED - no env vars allowed for security)\n"
    ++ (setting (codes "aws_region: \"") c.aws_region (codes "\"           # AWS region")
        ++ (setting (codes "aws_access_key: \"") c.aws_access_key
              (codes "\"       # REQUIRED: Your AWS Access Key")
            ++ (setting (codes "aws_secret_key: \"") c.aws_secret_key
                  (codes "\"       # REQUIRED: Your AWS Secret Key")
                ++ (codes "\n# DNS Settings (required)\n"
                    ++ (setting (codes "hosted_zone_id: \"") c.hosted_zone_id
                          (codes "\"       # Your Route53 Hosted Zone ID")
                        ++ (setting (codes "hostname: \"") c.hostname (
                              codes
                                "\"             # Domain name to update (e.g., home.example.com)")
                            ++ (setting (codes "ttl: ") (decimal c.ttl)
                                  (codes "                    # TTL in seconds")
                                ++ (codes "\n# Operational Settings\n"
                                    ++ setting (codes "ip_cache_file: \"") c.ip_cache_file
                                        (codes "\"        # Where to store last known IP")))))))))

-- `CreateDefault`, with the cache path of the profile.
unfoldable pub create_default :
    PlainFaults
    → (cache_path : Result Text Text) → Text
    → Files
    → Files × Result PlainError (Unit {0})
unfolding format_config_yaml
create_default f cache_path path fs = elim f.mkdir [
  | some e ↦ (fs, err (mkdir_failed e))
  | none ↦ elim cache_path [
    | err e ↦ (fs, err (cache_path_failed e))
    | ok cache ↦ write_plain f path (format_config_yaml (default_config cache)) fs
  ]
]
