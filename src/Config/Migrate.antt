-- ===== src/Config/Migrate.antt =====
-- `MigrateToSecure` of internal/config/secure_config.go: seal the configuration, then wipe the
-- plaintext.
use dddns.Prelude.{◌≡◌, ◌≢◌, [], ◌∷◌, Option, none, some, arith}
use dddns.Prelude.Lists.{length}
use dddns.Prelude.Result.{Result, ok, err, Result-cases}
use dddns.Prelude.Text.{Text, Lacks, text_eq_iff, text_eq_refl}
use dddns.Files.{Files, put}
use dddns.Config.{Config}
use dddns.Config.Secure.{
  Yaml, Faults, SecureError, SecureConfig, load_failed, save_failed, stat_failed, write_failed,
  remove_failed, save_secure, load_secure, to_secure,
}
use dddns.Config.Secure.RoundTrip.{reloaded, load_secure-save_secure}
use dddns.Config.Load.{load}
use dddns.Crypto.{Primitives, IsSound, Device, get_device_key}
use dddns.Prelude.{inr}
use dddns.Prelude.{inl}
use dddns.Config.Secure.RoundTrip.{load_secure-cong, save_secure-other}
use dddns.Prelude.{sym}
use dddns.Prelude.{◌∙◌}

-- As many zeros as the file has bytes.
zeros : Text → Text
zeros [] = []
zeros (c ∷ s) = 0 ∷ zeros s

-- The end of the migration. The overwritten file is kept if it cannot be removed.
unfoldable pub wipe : Faults → Text → Files → Files × Result SecureError (Unit {0})
unfolding zeros
wipe f path fs = elim f.stat [
  | some e ↦ (fs, err (stat_failed e))
  | none ↦ elim (fs path) [
    | none ↦ (fs, ok tt)
    | some file ↦ elim f.wipe [
      | some e ↦ (put fs path (some (record file { content = f.partial })), err (write_failed e))
      | none ↦
          let fs' = put fs path (some (record file { content = zeros file.content })) in
          elim f.remove [
            | some e ↦ (fs', err (remove_failed e))
            | none ↦ (put fs' path none, ok tt)
          ]
    ]
  ]
]

wipe-other : (f : Faults) (path q : Text) (fs : Files) → q ≢ path → (wipe f path fs).0 q ≡ fs q
unfolding wipe
wipe-other f path q fs h = ground (arith, text_eq_iff q path)

wipe-ok :
    (f : Faults) (path : Text) (fs : Files)
    → (wipe f path fs).1 ≡ ok tt
    → (wipe f path fs).0 path ≡ none
unfolding wipe
wipe-ok f path fs h = ground (arith, text_eq_refl path)

wipe-error :
    (f : Faults) (path : Text) (fs : Files) (e : SecureError)
    → (wipe f path fs).1 ≢ err (save_failed e)
unfolding wipe
wipe-error f path fs e h = ground arith

module _ (y : Yaml) (p : Primitives) (d : Device) (merge : Config → Text → Option Config) where
  unfoldable pub migrate_to_secure :
      (random random' : Result Text Text) (f : Faults) (cache_path : Result Text Text)
      (active plaintext secure : Text)
      → Files
      → Files × Result SecureError (Unit {0})
  migrate_to_secure random random' f cache_path active plaintext secure fs =
      elim (load y p d merge f cache_path active fs) [
        | err e ↦ (fs, err (load_failed e))
        | ok c ↦
            let (fs', saved) = save_secure y p d random random' f c secure fs in
            elim saved [ err e ↦ (fs', err (save_failed e)) | ok _ ↦ wipe f plaintext fs' ]
      ]

  -- If the sealed file cannot be saved, the plaintext is still there, byte for byte. The two
  -- paths differ.
  pub migrate_to_secure-save_failed :
      (random random' : Result Text Text) (f : Faults) (cache_path : Result Text Text)
      (active plaintext secure : Text) (fs : Files) (e : SecureError)
      → plaintext ≢ secure
      → (migrate_to_secure random random' f cache_path active plaintext secure fs).1
        ≡ err (save_failed e)
      → (migrate_to_secure random random' f cache_path active plaintext secure fs).0 plaintext
        ≡ fs plaintext
  unfolding migrate_to_secure
  migrate_to_secure-save_failed random random' f cache_path active plaintext secure fs e apart h =
      elim (Result-cases (load y p d merge f cache_path active fs)) [
        | inr (e', bad) ↦ absurd (ground arith)
        | inl (c, good) ↦
            let (fs', saved) = save_secure y p d random random' f c secure fs in
            elim (Result-cases saved) [
              | inl (u, done) ↦ absurd (wipe-error f plaintext fs' e (ground arith))
              | inr (e', failed) ↦
                  ground
                    (arith, save_secure-other y p d random random' f c secure plaintext fs apart)
            ]
      ]

-- After a migration that succeeds the plaintext file is gone, and the sealed one holds the
-- configuration that was loaded, but for the schedule and the time limit of an update. The two paths
-- differ; the other conditions are those of a save and a load.
pub migrate_to_secure-ok :
    (y : Yaml) (p : Primitives) (d : Device) (merge : Config → Text → Option Config)
    (key nonce nonce' : Text) (f g : Faults) (c : Config) (cache_path : Result Text Text)
    (active plaintext secure : Text) (fs : Files)
    → ((s : SecureConfig)
        → to_secure p d (ok nonce) (ok nonce') c ≡ ok s
        → y.unmarshal (y.marshal s) ≡ some s)
    → IsSound p
    → get_device_key p d ≡ ok key
    → length nonce ≡ p.nonce_size
    → length nonce' ≡ p.nonce_size
    → Lacks b':' c.aws_access_key
    → (g.stat ≡ none) × (g.read ≡ none)
    → plaintext ≢ secure
    → load y p d merge f cache_path active fs ≡ ok c
    → (migrate_to_secure y p d merge
        (ok nonce)
        (ok nonce')
        f
        cache_path
        active
        plaintext
        secure
        fs).1
      ≡ ok tt
    → ((migrate_to_secure y p d merge
            (ok nonce)
            (ok nonce')
            f
            cache_path
            active
            plaintext
            secure
            fs).0
          plaintext
        ≡ none)
      × (load_secure y p d g secure
            (migrate_to_secure y p d merge
              (ok nonce)
              (ok nonce')
              f
              cache_path
              active
              plaintext
              secure
              fs).0
          ≡ ok (reloaded c))
unfolding migrate_to_secure
migrate_to_secure-ok y p d merge key nonce nonce' f g c cache_path active plaintext secure fs
      spelled sound known size size' colon clear apart loaded h =
    let (fs', saved) = save_secure y p d (ok nonce) (ok nonce') f c secure fs in
    elim (Result-cases saved) [
      | inr (e, failed) ↦ absurd (ground arith)
      | inl (u, done) ↦
          let back =
            load_secure-save_secure y p d key nonce nonce' f g c secure fs spelled sound known size
              size' colon clear done in
          let same =
            load_secure-cong y p d g secure (wipe f plaintext fs').0 fs'
              (wipe-other f plaintext secure fs' (λ e. apart (sym e))) in
          rw (loaded, done, migrate_to_secure) (wipe-ok f plaintext fs' (ground arith), same ∙ back)
    ]
