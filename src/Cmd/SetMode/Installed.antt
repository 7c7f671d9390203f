-- ===== src/Cmd/SetMode/Installed.antt =====
-- What cmd/config_set_mode.go has installed when it succeeds.
use dddns.Prelude.{◌≡◌, ◌≢◌, [], ◌∷◌, Option, some}
use dddns.Prelude.Result.{Result}
use dddns.Prelude.Text.{Text, codes, split}
use dddns.Files.{Files}
use dddns.Config.{Config, ServerConfig, update_interval_or_default}
use dddns.Config.Validate.{IsServable}
use dddns.BootScript.{Params, default_unifi_params}
use dddns.BootScript.Entry.{here_document, cron_table, opener, started_by}

abbrev pub params : Text → Config → Params
params mode cfg = record (default_unifi_params mode) {
  update_interval = update_interval_or_default cfg;
}

-- The schedule of an update: the one of the configuration, or every thirty minutes.
pub data Schedule (cfg : Config) (interval : Text) : Type 0 where
  configured : cfg.update_interval ≢ [] → interval ≡ cfg.update_interval → Schedule cfg interval
  every_half_hour :
      cfg.update_interval ≡ [] → interval ≡ codes "*/30 * * * *" → Schedule cfg interval

module _ (split_host_port : Text → Option (Text × Text)) {N : Type 0}
    (parse_cidr : Text → Option N) where
  -- A script at the path: that of cron mode, whose cron table has the schedule of the configuration,
  -- or that of serve mode, for a server block that passes its check.
  pub data Installed (cfg : Config) (mode : Text) (content : Text) : Type 0 where
    cron :
        mode ≡ codes "cron"
        → (interval : Text) → Schedule cfg interval
        → here_document opener (codes "CRON") (split 10 content) ≡ some (cron_table interval)
        → Installed cfg mode content
    serve :
        mode ≡ codes "serve"
        → (block : ServerConfig) → cfg.server ≡ some block
        → IsServable split_host_port parse_cidr block
        → started_by content ≡ some (codes "ExecStart=/usr/local/bin/dddns serve" ∷ [])
        → Installed cfg mode content
