-- ===== src/Cmd/Root.antt =====
-- cmd/root.go: which configuration file a command works on. What `os.Stat` and `os.ReadFile` answer,
-- and whether a text is YAML, are parameters.
pub mod Active
use dddns.Prelude.{ℕ, ◌≡◌, Bool, not, ◌&&◌, [], Option, none, some}
use dddns.Prelude.Tests.{◌==◌, if◌then◌else◌}
use dddns.Prelude.Result.{Result, ok, err, ◌>>=◌, ◌>>◌, wrap}
use dddns.Prelude.Text.{Text, codes, is_empty, has_suffix}
use dddns.Prelude.FilePath.{join}
use dddns.Files.{config_file_perm, secure_config_perm}
use dddns.Profile.{Host, detect, get_data_dir, get_secure_path}

pub data Stat : Type 0 where
  found : (mode : ℕ) → Stat
  absent : Stat
  failed : Text → Stat

pub record InitEnv : Type 0 where
  pub host : Host
  pub stat : Text → Stat
  pub read_file : Text → Result Text Text
  pub is_yaml : Text → Bool

-- The messages with which the program exits.
pub data InitError : Type 0 where
  no_secure_path no_data_dir cannot_read not_found cannot_stat : Text → InitError
  insecure_permissions : ℕ → InitError
  not_yaml : InitError

-- The plaintext file of the profile, "" if there is none.
resolve_plain : InitEnv → Result InitError Text
resolve_plain env = do
  dir ← wrap no_data_dir (get_data_dir env.host (detect env.host))
  let path = join dir (codes "config.yaml")
  elim (env.stat path) [ found _ ↦ ok path | absent ↦ ok [] | failed e ↦ err (cannot_read e) ]

unfoldable pub resolve : InitEnv → Result InitError Text
unfolding resolve_plain
resolve env = do
  path ← wrap no_secure_path (get_secure_path env.host (detect env.host))
  elim (env.stat path) [
    | found _ ↦ ok path
    | failed e ↦ err (cannot_read e)
    | absent ↦ resolve_plain env
  ]

unfoldable pub check_config_permissions : InitEnv → Text → Result InitError (Unit {0})
check_config_permissions env path = elim (env.stat path) [
  | absent ↦ err (cannot_stat [])
  | failed e ↦ err (cannot_stat e)
  | found mode ↦
      if not (mode == config_file_perm) && not (mode == secure_config_perm)
      then err (insecure_permissions mode)
      else ok tt
]

-- The early parse of a plaintext file.
probe_yaml : InitEnv → Text → Result InitError (Unit {0})
probe_yaml env path =
    if not (has_suffix (codes ".secure") path)
    then elim (env.read_file path) [
      | err e ↦ err (cannot_read e)
      | ok s ↦ if env.is_yaml s then ok tt else err not_yaml
    ]
    else ok tt

-- The checks of the file that was resolved; the answer is the active path.
unfoldable pub activate : InitEnv → Text → Result InitError Text
unfolding probe_yaml check_config_permissions
activate env path =
    if is_empty path
    then ok []
    else do check_config_permissions env path; probe_yaml env path; ok path

-- `initConfig`, with the value of the flag `--config`, "" if it is not given.
unfoldable pub init_config : InitEnv → Text → Result InitError Text
init_config env flag =
    if is_empty flag then resolve env >>= activate env else elim (env.stat flag) [
      | absent ↦ err (not_found [])
      | failed e ↦ err (not_found e)
      | found _ ↦ activate env flag
    ]
