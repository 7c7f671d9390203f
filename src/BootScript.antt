-- ===== src/BootScript.antt =====
-- internal/bootscript/bootscript.go: the script that a UniFi device runs at its start. A script is
-- kept by its lines.
pub mod Lines
pub mod Entry
use dddns.Prelude.{ℕ, Bool, List, [], ◌∷◌, ◌++◌, Option, none, some}
use dddns.Prelude.Tests.{if◌then◌else◌}
use dddns.Prelude.Result.{Result, ok, err}
use dddns.Prelude.Text.{Text, codes, text_eq, is_empty}
use dddns.BootScript.Lines.{
  unlines, quote, header_start, header_end, cron_start, cron_end, serve_tail,
}

pub record Params : Type 0 where
  pub mode : Text
  pub binary_path : Text
  pub config_dir : Text
  pub cron_entry_path : Text
  pub update_interval : Text

unfoldable pub default_unifi_params : Text → Params
default_unifi_params mode = record {
  mode = mode;
  binary_path = codes "/data/dddns/dddns";
  config_dir = codes "/data/.dddns";
  cron_entry_path = codes "/etc/cron.d/dddns";
  update_interval = [];
}

pub data ScriptError : Type 0 where
  no_interval : ScriptError
  unknown_mode : Text → ScriptError

-- `commonHeader` with its three paths put in.
unfoldable pub common_header : Params → List Text
common_header p =
    header_start
    ++ ((codes "BINARY=" ++ quote p.binary_path)
        ∷ (codes "CONFIG_DIR=" ++ quote p.config_dir)
        ∷ (codes "CRON_PATH=" ++ quote p.cron_entry_path)
        ∷ header_end)

-- The line of the cron table.
abbrev pub cron_entry : Text → Text
cron_entry interval =
    interval ++ codes " root /usr/local/bin/dddns update --quiet 2>&1 | /usr/bin/logger -t dddns"

unfoldable pub cron_lines : Params → List Text
cron_lines p = common_header p ++ (cron_start ++ cron_entry p.update_interval ∷ cron_end)

unfoldable pub render_cron : Params → Text
render_cron p = unlines (cron_lines p)

unfoldable pub render_serve : Params → Text
render_serve p = unlines (common_header p ++ serve_tail)

unfoldable pub generate : Params → Result ScriptError Text
generate p =
    if text_eq p.mode (codes "cron")
    then if is_empty p.update_interval then err no_interval else ok (render_cron p)
    else if text_eq p.mode (codes "serve")
    then ok (render_serve p)
    else err (unknown_mode p.mode)
