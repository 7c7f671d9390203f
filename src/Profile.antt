-- ===== src/Profile.antt =====
-- internal/profile/profile.go: where the program finds itself, and where its files are then. What
-- the operating system answers is a record of parameters.
pub mod Places
use dddns.Prelude.{ℕ, ◌≡◌, Bool, true, not, List, [], ◌∷◌, ◌++◌}
use dddns.Prelude.Tests.{if◌then◌else◌}
use dddns.Prelude.Result.{Result, ok, err, ◌>>=◌}
use dddns.Prelude.Text.{Text, codes, text_eq, is_empty}
use dddns.Prelude.FilePath.{join}
use dddns.Files.{config_file_perm, secure_config_perm, config_dir_perm, cache_dir_perm}
use dddns.Crypto.{Os, linux, darwin, windows, other_os}

pub record Profile : Type 0 where
  pub name : Text
  pub data_dir : Text
  pub config_perm : ℕ
  pub secure_perm : ℕ
  pub dir_perm : ℕ
  pub use_hardware_id : Bool
  pub device_id_path : Text

abbrev pub udm : Profile
udm = record {
  name = codes "udm";
  data_dir = codes "/data/.dddns";
  config_perm = config_file_perm;
  secure_perm = secure_config_perm;
  dir_perm = config_dir_perm;
  use_hardware_id = true;
  device_id_path = codes "/proc/ubnthal/system.info";
}

abbrev pub linux_profile : Profile
linux_profile = record {
  name = codes "linux";
  data_dir = codes "$HOME/.dddns";
  config_perm = config_file_perm;
  secure_perm = secure_config_perm;
  dir_perm = config_dir_perm;
  use_hardware_id = true;
  device_id_path = codes "/sys/class/net/eth0/address";
}

abbrev pub mac_os : Profile
mac_os = record {
  name = codes "macos";
  data_dir = codes "$HOME/.dddns";
  config_perm = config_file_perm;
  secure_perm = secure_config_perm;
  dir_perm = config_dir_perm;
  use_hardware_id = true;
  device_id_path = codes "system_profiler";
}

abbrev pub docker : Profile
docker = record {
  name = codes "docker";
  data_dir = codes "/config";
  config_perm = config_file_perm;
  secure_perm = secure_config_perm;
  dir_perm = cache_dir_perm;
  use_hardware_id = true;
  device_id_path = codes "/proc/self/cgroup";
}

abbrev pub windows_profile : Profile
windows_profile = record {
  name = codes "windows";
  data_dir = codes "$APPDATA/dddns";
  config_perm = 0o600;
  secure_perm = 0o400;
  dir_perm = 0o700;
  use_hardware_id = true;
  device_id_path = codes "wmic";
}

-- `os.Stat` without an error, `runtime.GOOS`, `os.UserHomeDir`, and the variable APPDATA.
pub record Host : Type 0 where
  pub exists : Text → Bool
  pub os : Os
  pub home : Result Text Text
  pub appdata : Text

-- The `switch` on the operating system.
by_os : Os → Profile
by_os darwin = mac_os
by_os linux = linux_profile
by_os windows = windows_profile
by_os other_os = linux_profile

unfoldable pub detect : Host → Profile
unfolding by_os
detect h =
    if h.exists (codes "/proc/ubnthal/system.info")
    then udm
    else if h.exists (codes "/.dockerenv")
    then docker
    else by_os h.os

unfoldable pub get_data_dir : Host → Profile → Result Text Text
get_data_dir h p =
    if text_eq p.data_dir (codes "$HOME/.dddns")
    then h.home >>= (λ home. ok (join home (codes ".dddns")))
    else if text_eq p.data_dir (codes "$APPDATA/dddns")
    then (if not (is_empty h.appdata)
        then ok (join h.appdata (codes "dddns"))
        else h.home >>= (λ home. ok (join home (codes "AppData/Roaming/dddns"))))
    else ok p.data_dir

unfoldable pub get_config_path : Host → Profile → Result Text Text
get_config_path h p = do dir ← get_data_dir h p; ok (join dir (codes "config.yaml"))

unfoldable pub get_secure_path : Host → Profile → Result Text Text
get_secure_path h p = do dir ← get_data_dir h p; ok (join dir (codes "config.secure"))

unfoldable pub get_cache_path : Host → Profile → Result Text Text
get_cache_path h p = do dir ← get_data_dir h p; ok (join dir (codes "last-ip.txt"))
