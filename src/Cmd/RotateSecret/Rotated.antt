-- ===== src/Cmd/RotateSecret/Rotated.antt =====
-- The configuration after cmd/config_rotate_secret.go.
use dddns.Prelude.{◌≡◌, ◌≢◌, ◌∙◌, Bool, true, [], ◌++◌, none, some, arith, inl, inr}
use dddns.Prelude.Lists.{length}
use dddns.Prelude.Result.{Result, ok, Result-cases}
use dddns.Prelude.Text.{Text, codes, Lacks, has_suffix}
use dddns.Files.{Files}
use dddns.Crypto.{Primitives, IsSound, Device, get_device_key}
use dddns.Config.{Config, ServerConfig}
use dddns.Config.Secure.{Yaml, Faults, SecureConfig, to_secure, save_secure, load_secure}
use dddns.Config.Secure.RoundTrip.{reloaded, load_secure-save_secure, load_secure-cong}
use dddns.Server.Handler.{new_entry}
use dddns.Server.Audit.{new_audit_log}
use dddns.Server.Audit.Rotation.{write-other}
use dddns.Server.Lifecycle.{audit_path}
use dddns.Cmd.RotateSecret.{
  RotateEnv, block_for, with_secret, save, record_rotation, replace_secret, generate_secret,
  run_rotate_secret,
}
use dddns.Prelude.{ap}

-- A run that succeeds has come to the last step, with the secret that it answers.
run_rotate_secret-ok :
    (env : RotateEnv) (init : Bool) (cfg : Config) (block : ServerConfig) (path secret : Text)
    (fs : Files)
    → block_for init cfg.server ≡ some block
    → (run_rotate_secret env init (ok cfg) path fs).1 ≡ ok secret
    → ((save env (with_secret cfg block secret) path fs).1 ≡ ok tt)
      × ((run_rotate_secret env init (ok cfg) path fs).0
          ≡ record_rotation env
              (with_secret cfg block secret)
              (save env (with_secret cfg block secret) path fs).0)
unfolding run_rotate_secret replace_secret
run_rotate_secret-ok env init cfg block path secret fs chosen h =
    elim (Result-cases (generate_secret env.random)) [
      | inr (e, bad) ↦ absurd (ground arith)
      | inl (new, good) ↦ elim (Result-cases (save env (with_secret cfg block new) path fs).1) [
        | inr (e, bad) ↦ absurd (ground arith)
        | inl (_, saved) ↦ let same : new ≡ secret = ground arith in (ground arith, ground arith)
      ]
    ]

-- The save of a sealed file.
save-sealed :
    (env : RotateEnv) (cfg : Config) (path : Text) (fs : Files)
    → has_suffix (codes ".secure") path ≡ true
    → (save env cfg path fs).1 ≡ ok tt
    → ((save_secure env.yaml env.primitives env.device env.nonce env.nonce' env.faults cfg path
          fs).1
        ≡ ok tt)
      × ((save env cfg path fs).0
          ≡ (save_secure env.yaml env.primitives env.device env.nonce env.nonce' env.faults cfg path
              fs).0)
unfolding save
save-sealed env cfg path fs h ok' = (ground arith, ground arith)

record_rotation-other :
    (env : RotateEnv) (cfg : Config) (q : Text) (fs : Files)
    → q ≢ audit_path cfg
    → q ≢ audit_path cfg ++ codes ".old"
    → record_rotation env cfg fs q ≡ fs q
unfolding record_rotation new_audit_log
record_rotation-other env cfg q fs h k =
    write-other (new_audit_log (audit_path cfg) env.marshal_entry) env.audit_faults env.now
      (record (new_entry []) { action = codes "rotate-secret" }) q fs h k

-- The round trip of a sealed configuration, with the nonces that the random source gives.
load_secure-saved :
    (y : Yaml) (p : Primitives) (d : Device) (key nonce nonce' : Text)
    (random random' : Result Text Text) (f g : Faults) (c : Config) (path : Text) (fs : Files)
    → random ≡ ok nonce
    → random' ≡ ok nonce'
    → ((s : SecureConfig)
        → to_secure p d (ok nonce) (ok nonce') c ≡ ok s
        → y.unmarshal (y.marshal s) ≡ some s)
    → IsSound p
    → get_device_key p d ≡ ok key
    → length nonce ≡ p.nonce_size
    → length nonce' ≡ p.nonce_size
    → Lacks b':' c.aws_access_key
    → (g.stat ≡ none) × (g.read ≡ none)
    → (save_secure y p d random random' f c path fs).1 ≡ ok tt
    → load_secure y p d g path (save_secure y p d random random' f c path fs).0 ≡ ok (reloaded c)
load_secure-saved y p d key nonce nonce' random random' f g c path fs e e' spelled sound known size
      size' colon clear h =
    rw (e, e')
      (load_secure-save_secure y p d key nonce nonce' f g c path fs spelled sound known size size'
        colon clear (rw (e, e') at h))

-- After a rotation that succeeds on a sealed file, a load gives the configuration of before with the
-- secret that was printed, in its own server block or the new one, and without the schedule and the
-- time limit of an update. The audit log is another file; the other conditions are those of a save
-- and a load.
pub load_secure-run_rotate_secret :
    (env : RotateEnv) (init : Bool) (cfg : Config) (block : ServerConfig)
    (path key nonce nonce' secret : Text) (g : Faults) (fs : Files)
    → block_for init cfg.server ≡ some block
    → has_suffix (codes ".secure") path ≡ true
    → env.nonce ≡ ok nonce
    → env.nonce' ≡ ok nonce'
    → ((s : SecureConfig)
        → to_secure env.primitives env.device (ok nonce) (ok nonce') (with_secret cfg block secret)
          ≡ ok s
        → env.yaml.unmarshal (env.yaml.marshal s) ≡ some s)
    → IsSound env.primitives
    → get_device_key env.primitives env.device ≡ ok key
    → length nonce ≡ env.primitives.nonce_size
    → length nonce' ≡ env.primitives.nonce_size
    → Lacks b':' cfg.aws_access_key
    → (g.stat ≡ none) × (g.read ≡ none)
    → path ≢ audit_path (with_secret cfg block secret)
    → path ≢ audit_path (with_secret cfg block secret) ++ codes ".old"
    → (run_rotate_secret env init (ok cfg) path fs).1 ≡ ok secret
    → load_secure env.yaml env.primitives env.device g path
        (run_rotate_secret env init (ok cfg) path fs).0
      ≡ ok (reloaded (with_secret cfg block secret))
load_secure-run_rotate_secret env init cfg block path key nonce nonce' secret g fs chosen sealed e
      e' spelled sound known size size' colon clear apart apart' h =
    let cfg' = with_secret cfg block secret in
    let (saved, after) = run_rotate_secret-ok env init cfg block path secret fs chosen h in
    let (done, stored) = save-sealed env cfg' path fs sealed saved in
    let read = load_secure env.yaml env.primitives env.device g path in
    ap read after
    ∙ load_secure-cong env.yaml env.primitives env.device g path _ _
        (record_rotation-other env cfg' path (save env cfg' path fs).0 apart apart')
    ∙ ap read stored
    ∙ load_secure-saved env.yaml env.primitives env.device key nonce nonce' env.nonce env.nonce'
        env.faults g cfg' path fs e e' spelled sound known size size' colon clear done
