-- ===== src/Cmd/Secure/Enabled.antt =====
-- cmd/secure.go: what the two commands come to.
use Prim.Native.Nat.{◌-◌}
use dddns.Prelude.{
  ℕ, zero, suc, ◌≤◌, ◌≡◌, ◌≢◌, refl, ap, inl, inr, true, [], ◌∷◌, ◌++◌, Option, none, arith,
}
use dddns.Prelude.Tests.{Bool-cases, leb}
use dddns.Prelude.Lists.{length, length-append, take}
use dddns.Prelude.Result.{Result, ok, Result-cases}
use dddns.Prelude.Text.{Text, codes, has_suffix, Lacks}
use dddns.Files.{Files}
use dddns.Config.{Config}
use dddns.Config.Secure.{Yaml, Faults, SecureConfig, to_secure, load_secure}
use dddns.Config.Secure.RoundTrip.{reloaded}
use dddns.Config.Load.{load}
use dddns.Config.Migrate.{migrate_to_secure, migrate_to_secure-ok}
use dddns.Crypto.{Primitives, IsSound, Device, get_device_key, encrypt_credentials}
use dddns.Crypto.RoundTrip.{sealed_credentials}
use dddns.Cmd.Secure.{
  trim_suffix, secure_path_for, path_to_seal, stat_ok, enable_at, run_enable_secure, test_access,
  test_secret, compare_opened, run_test_secure,
}
use dddns.Prelude.{Bool, ◌⊎◌}
use dddns.Prelude.{false, some}
use dddns.Crypto.{encrypt_string}
use dddns.Prelude.Text.{text_eq_refl}

length-take : (n : ℕ) (s : Text) → n ≤ length s → length (take n s) ≡ n
length-take zero s h = refl
length-take (suc n) [] h = absurd (omega arith)
length-take (suc n) (c ∷ s) h = omega (arith, length-take n s (omega arith))

length-take-sub : (n : ℕ) (s : Text) → length (take (length s - n) s) ≡ length s - n
length-take-sub n s = length-take (length s - n) s (omega arith)

length-trim_suffix :
    (p s : Text) → (length (trim_suffix p s) ≡ length s - length p) ⊎ (trim_suffix p s ≡ s)
unfolding trim_suffix
length-trim_suffix p s = elim (Bool-cases (has_suffix p s)) [
  | inl e ↦ inl (rw e (length-take-sub (length p) s))
  | inr e ↦ inr (rw e)
]

-- The sealed file has another name than the file it is made from.
length-secure_path_for : (path : Text) → length path ≢ length (secure_path_for path)
unfolding secure_path_for
length-secure_path_for path h = elim (Bool-cases (has_suffix (codes ".yaml") path)) [
  | inl e ↦
      let n = length-append (trim_suffix (codes ".yaml") path) (codes ".secure") in
      elim (length-trim_suffix (codes ".yaml") path) [
        | inl short ↦ ground (arith, n, short)
        | inr same ↦ ground (arith, n, ap length same)
      ]
  | inr e ↦ ground (arith, length-append path (codes ".secure"))
]

module _ (y : Yaml) (p : Primitives) (d : Device) (merge : Config → Text → Option Config)
    (random random' : Result Text Text) (f : Faults) (cache_path : Result Text Text) where
  -- A run that succeeds is a migration that succeeds.
  enable_at-ok :
      (stat_fails : Bool) (active path : Text) (fs : Files)
      → (enable_at y p d merge random random' f cache_path stat_fails active path fs).1 ≡ ok tt
      → ((migrate_to_secure y p d merge random random' f cache_path active path
            (secure_path_for path)
            fs).1
          ≡ ok tt)
        × (stat_ok stat_fails (fs (secure_path_for path)) ≡ false)
        × ((enable_at y p d merge random random' f cache_path stat_fails active path fs).0
            ≡ (migrate_to_secure y p d merge random random' f cache_path active path
                (secure_path_for path)
                fs).0)
  unfolding enable_at
  enable_at-ok stat_fails active path fs h =
      elim (Bool-cases (stat_ok stat_fails (fs (secure_path_for path)))) [
        | inl there ↦ absurd (ground arith)
        | inr free ↦
            elim (Result-cases
              (migrate_to_secure y p d merge random random' f cache_path active path
                (secure_path_for path) fs).1) [
                  | inl (_, fine) ↦ (ground arith, free, rw (free, enable_at))
                  | inr (e, bad) ↦ absurd (ground arith)
                ]
      ]

-- After the command `secure enable` succeeds, the file that it was about is gone, and its sealed form,
-- under another name, holds the configuration that was loaded, but for the schedule and the time limit
-- of an update. The conditions are those of a save and a load.
pub run_enable_secure-ok :
    (y : Yaml) (p : Primitives) (d : Device) (merge : Config → Text → Option Config)
    (key nonce nonce' : Text) (f g : Faults) (c : Config) (cache_path resolved : Result Text Text)
    (stat_fails : Bool) (active cfg_file path : Text) (fs : Files)
    → ((s : SecureConfig)
        → to_secure p d (ok nonce) (ok nonce') c ≡ ok s
        → y.unmarshal (y.marshal s) ≡ some s)
    → IsSound p
    → get_device_key p d ≡ ok key
    → length nonce ≡ p.nonce_size
    → length nonce' ≡ p.nonce_size
    → Lacks b':' c.aws_access_key
    → (g.stat ≡ none) × (g.read ≡ none)
    → path_to_seal cfg_file resolved ≡ ok path
    → load y p d merge f cache_path active fs ≡ ok c
    → (run_enable_secure y p d merge
        (ok nonce)
        (ok nonce')
        f
        cache_path
        stat_fails
        active
        cfg_file
        resolved
        fs).1
      ≡ ok tt
    → ((run_enable_secure y p d merge
            (ok nonce)
            (ok nonce')
            f
            cache_path
            stat_fails
            active
            cfg_file
            resolved
            fs).0
          path
        ≡ none)
      × (load_secure y p d g
            (secure_path_for path)
            (run_enable_secure y p d merge
              (ok nonce)
              (ok nonce')
              f
              cache_path
              stat_fails
              active
              cfg_file
              resolved
              fs).0
          ≡ ok (reloaded c))
unfolding run_enable_secure
run_enable_secure-ok y p d merge key nonce nonce' f g c cache_path resolved stat_fails active
      cfg_file path fs spelled sound known size size' colon clear chosen loaded h =
    let at =
      enable_at-ok y p d merge (ok nonce) (ok nonce') f cache_path stat_fails active path fs
        (ground arith) in
    rw (chosen, run_enable_secure)
      (rw at.2 (
        migrate_to_secure-ok y p d merge key nonce nonce' f g c cache_path active path
          (secure_path_for path) fs spelled sound known size size' colon clear
          (λ e. length-secure_path_for path (ap length e)) loaded at.0))

-- Sealing and encoding make a text no shorter.
pub record IsGrowing (p : Primitives) : Type 0 where
  pub sealed : (key nonce s : Text) → length s ≤ length (p.seal key nonce s)
  pub encoded : (s : Text) → length s ≤ length (p.encode s)

le→leb : (a b : ℕ) → a ≤ b → leb a b ≡ true
le→leb a b h = ground arith

-- The vault of the test is long enough to be shown.
long_vault :
    (p : Primitives) (d : Device) (key nonce : Text)
    → IsGrowing p
    → get_device_key p d ≡ ok key
    → (v : Text) → encrypt_credentials p d (ok nonce) test_access test_secret ≡ ok v
    → 32 ≤ length v
unfolding encrypt_credentials encrypt_string
long_vault p d key nonce growing known v h =
    let t = test_access ++ b':' ∷ test_secret in
    let body = p.seal key nonce t in
    let same : v ≡ p.encode (nonce ++ body) = ground arith in
    rw same (
      omega (
        arith,
        growing.encoded (nonce ++ body),
        length-append nonce body,
        growing.sealed key nonce t,
      ))

-- The command `secure test` passes on every device with a key of eight bytes or more, if there is a
-- nonce of the size that the cipher wants, the cipher and the encoding undo what they do, and neither
-- makes a text shorter.
pub run_test_secure-ok :
    (p : Primitives) (d : Device) (key nonce : Text)
    → IsSound p
    → IsGrowing p
    → get_device_key p d ≡ ok key
    → 8 ≤ length key
    → length nonce ≡ p.nonce_size
    → run_test_secure p d (ok nonce) ≡ ok tt
unfolding run_test_secure compare_opened
run_test_secure-ok p d key nonce sound growing known long size =
    let (v, sealed, opened) =
      sealed_credentials p sound d key nonce known size test_access test_secret (omega arith) in
    let enough = long_vault p d key nonce growing known v sealed in
    rw (known, le→leb _ _ long, run_test_secure)
      (rw (sealed, le→leb _ _ enough)
        (rw (opened, text_eq_refl test_access, text_eq_refl test_secret)))
