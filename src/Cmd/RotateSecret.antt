-- ===== src/Cmd/RotateSecret.antt =====
-- cmd/config_rotate_secret.go: a new shared secret for serve mode.
pub mod Rotated
use Prim.Native.Nat.{◌/◌, ◌%◌}
use dddns.Prelude.{ℕ, ◌≡◌, Bool, not, List, [], ◌∷◌, ◌++◌, Option, none, some}
use dddns.Prelude.Tests.{if◌then◌else◌}
use dddns.Prelude.Result.{Result, ok, err, wrap}
use dddns.Prelude.Text.{Text, codes, is_empty, has_suffix}
use dddns.Files.{Files}
use dddns.Crypto.{Primitives, Device}
use dddns.Config.{Config, ServerConfig}
use dddns.Config.Secure.{Yaml, Faults, SecureError, save_secure}
use dddns.Config.Plain.{PlainFaults, PlainError, save_plaintext}
use dddns.BootScript.Lines.{hex_lower}
use dddns.Server.Handler.{AuditEntry, new_entry}
use dddns.Server.Audit.{AuditFaults, new_audit_log, write}
use dddns.Server.Lifecycle.{audit_path}

pub data RotateError : Type 0 where
  load_failed : SecureError → RotateError
  no_path no_server_block : RotateError
  generate_failed : Text → RotateError
  secure_not_saved : SecureError → RotateError
  plain_not_saved : PlainError → RotateError

abbrev pub default_bind : Text
default_bind = codes "127.0.0.1:53353"

abbrev pub default_allowed_cidr : Text
default_allowed_cidr = codes "127.0.0.0/8"

-- `hex.EncodeToString`.
hex_encode : Text → Text
unfolding hex_lower
hex_encode [] = []
hex_encode (c ∷ s) = hex_lower (c / 16) ∷ hex_lower (c % 16) ∷ hex_encode s

-- `generateSecret`, where `random` fills a buffer of the length that it is given.
unfoldable pub generate_secret : (random : ℕ → Result Text Text) → Result RotateError Text
unfolding hex_encode
generate_secret random = elim (random 32) [
  | err e ↦ err (generate_failed e)
  | ok bytes ↦ ok (hex_encode bytes)
]

-- The block to update: that of the configuration, or a new one that listens on the loopback.
unfoldable pub block_for : Bool → Option ServerConfig → Option ServerConfig
block_for init (some s) = some s
block_for init none =
    if init
    then some (record {
      bind = default_bind;
      shared_secret = [];
      allowed_cidrs = default_allowed_cidr ∷ [];
      audit_log = [];
      wan_interface = [];
    })
    else none

abbrev pub with_secret : Config → ServerConfig → Text → Config
with_secret cfg block secret = record cfg {
  server = some (record block { shared_secret = secret });
}

-- What the command finds: the codecs, the random values, the time, and the calls that fail.
pub record RotateEnv : Type 0 where
  pub yaml : Yaml
  pub primitives : Primitives
  pub device : Device
  pub marshal_plain : Config → Result Text Text
  pub marshal_entry : ℕ → AuditEntry → Result Text Text
  pub random : ℕ → Result Text Text
  pub nonce : Result Text Text
  pub nonce' : Result Text Text
  pub now : ℕ
  pub faults : Faults
  pub plain_faults : PlainFaults
  pub audit_faults : AuditFaults

save_sealed : RotateEnv → Config → Text → Files → Files × Result RotateError (Unit {0})
save_sealed env cfg path fs =
    let (fs', saved) =
      save_secure env.yaml env.primitives env.device env.nonce env.nonce' env.faults cfg path fs in
    (fs', wrap secure_not_saved saved)

save_plain : RotateEnv → Config → Text → Files → Files × Result RotateError (Unit {0})
save_plain env cfg path fs =
    let (fs', saved) = save_plaintext env.marshal_plain env.plain_faults cfg path fs in
    (fs', wrap plain_not_saved saved)

-- The write in the format of the file that was loaded.
unfoldable pub save : RotateEnv → Config → Text → Files → Files × Result RotateError (Unit {0})
unfolding save_sealed save_plain
save env cfg path fs =
    if has_suffix (codes ".secure") path
    then save_sealed env cfg path fs
    else save_plain env cfg path fs

-- The audit line; a failure to write it is ignored.
unfoldable pub record_rotation : RotateEnv → Config → Files → Files
record_rotation env cfg fs =
    (write (new_audit_log (audit_path cfg) env.marshal_entry) env.audit_faults env.now
      (record (new_entry []) { action = codes "rotate-secret" }) fs).0

-- From the new secret on; the answer is the secret that is printed.
unfoldable pub replace_secret :
    RotateEnv
    → Config
    → ServerConfig
    → (path secret : Text) → Files
    → Files × Result RotateError Text
unfolding save record_rotation
replace_secret env cfg block path secret fs =
    let cfg' = with_secret cfg block secret in
    let (fs', saved) = save env cfg' path fs in
    elim saved [ err e ↦ (fs', err e) | ok _ ↦ (record_rotation env cfg' fs', ok secret) ]

-- `runRotateSecret`, on the answer of `config.Load` and the path of the file that was loaded.
unfoldable pub run_rotate_secret :
    RotateEnv
    → (init : Bool) → (loaded : Result SecureError Config) → (path : Text) → Files
    → Files × Result RotateError Text
run_rotate_secret env init loaded path fs = elim loaded [
  | err e ↦ (fs, err (load_failed e))
  | ok cfg ↦ if is_empty path then (fs, err no_path) else elim (block_for init cfg.server) [
    | none ↦ (fs, err no_server_block)
    | some block ↦ elim (generate_secret env.random) [
      | err e ↦ (fs, err e)
      | ok secret ↦ replace_secret env cfg block path secret fs
    ]
  ]
]
