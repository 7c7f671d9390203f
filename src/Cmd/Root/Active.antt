-- ===== src/Cmd/Root/Active.antt =====
-- The configuration file that cmd/root.go settles on.
use dddns.Prelude.{ℕ, ◌≡◌, ◌≢◌, ◌⊎◌, inl, inr, refl, sym, ap, ◌∙◌, [], arith}
use dddns.Prelude.Tests.{Bool-cases}
use dddns.Prelude.Result.{ok, Result-cases}
use dddns.Prelude.Text.{Text, codes, is_empty, eq-nil_of_empty, ne-nil_of_not_empty}
use dddns.Prelude.FilePath.{join}
use dddns.Files.{config_file_perm, secure_config_perm}
use dddns.Profile.{detect, get_data_dir, get_secure_path, get_config_path}
use dddns.Cmd.Root.{
  Stat, found, absent, failed, InitEnv, resolve, resolve_plain, activate, check_config_permissions,
  init_config,
}
use mathlib.Core.Path.{subst}
use dddns.Prelude.{sym}

pub Stat-cases :
    (s : Stat) → ((mode : ℕ) × (s ≡ found mode)) ⊎ (s ≡ absent) ⊎ ((e : Text) × (s ≡ failed e))
Stat-cases (found mode) = inl (mode, refl)
Stat-cases absent = inr (inl refl)
Stat-cases (failed e) = inr (inr (e, refl))

-- Which file it is: that of the flag; else the sealed one of the profile, if it is there; else the
-- plaintext one, if it is there; else none.
pub data Chosen (env : InitEnv) (flag path : Text) : Type 0 where
  by_flag : flag ≢ [] → path ≡ flag → Chosen env flag path
  sealed :
      flag ≡ []
      → get_secure_path env.host (detect env.host) ≡ ok path
      → env.stat path ≢ absent
      → Chosen env flag path
  plain :
      (secure : Text)
      → flag ≡ []
      → get_secure_path env.host (detect env.host) ≡ ok secure
      → env.stat secure ≡ absent
      → get_config_path env.host (detect env.host) ≡ ok path
      → env.stat path ≢ absent
      → Chosen env flag path
  nothing :
      (secure config : Text)
      → flag ≡ []
      → get_secure_path env.host (detect env.host) ≡ ok secure
      → env.stat secure ≡ absent
      → get_config_path env.host (detect env.host) ≡ ok config
      → env.stat config ≡ absent
      → path ≡ []
      → Chosen env flag path

-- A file that is read only by its owner.
pub record IsProtected (env : InitEnv) (path : Text) : Type 0 where
  pub mode : ℕ
  pub there : env.stat path ≡ found mode
  pub owner_only : (mode ≡ config_file_perm) ⊎ (mode ≡ secure_config_perm)

resolve-Chosen : (env : InitEnv) (path : Text) → resolve env ≡ ok path → Chosen env [] path
unfolding resolve resolve_plain get_config_path
resolve-Chosen env path h = elim (Result-cases (get_secure_path env.host (detect env.host))) [
  | inr (e, bad) ↦ absurd (ground arith)
  | inl (secure, good) ↦ elim (Stat-cases (env.stat secure)) [
    | inl (mode, there) ↦
        let same : secure ≡ path = ground arith in sealed refl (ground arith) (λ e. ground arith)
    | inr (inr (e, bad)) ↦ absurd (ground arith)
    | inr (inl missing) ↦ elim (Result-cases (get_data_dir env.host (detect env.host))) [
      | inr (e, bad) ↦ absurd (ground arith)
      | inl (dir, known) ↦ elim (Stat-cases (env.stat (join dir (codes "config.yaml")))) [
        | inl (mode, there) ↦
            let same : join dir (codes "config.yaml") ≡ path = ground arith in
            plain secure refl good missing (ground arith) (λ e. ground arith)
        | inr (inl none_there) ↦
            nothing secure (join dir (codes "config.yaml")) refl good missing (ground arith)
              none_there (ground arith)
        | inr (inr (e, bad)) ↦ absurd (ground arith)
      ]
    ]
  ]
]

activate-ok :
    (env : InitEnv) (path active : Text)
    → activate env path ≡ ok active
    → (active ≡ path) × ((path ≡ []) ⊎ IsProtected env path)
unfolding activate check_config_permissions
activate-ok env path active h = elim (Bool-cases (is_empty path)) [
  | inl e ↦ let none_given = eq-nil_of_empty path e in (ground arith, inl none_given)
  | inr e ↦ elim (Stat-cases (env.stat path)) [
    | inr (inl missing) ↦ absurd (ground arith)
    | inr (inr (e', bad)) ↦ absurd (ground arith)
    | inl (mode, there) ↦
        (ground arith, inr (record { mode = mode; there = there; owner_only = ground arith }))
  ]
]

-- The program goes on with the file of the flag; or, without the flag, with the sealed file of the
-- profile if it is there, else with the plaintext one if it is there, else with none. A file that it
-- goes on with has one of the two modes that keep others out.
pub init_config-Chosen :
    (env : InitEnv) (flag path : Text)
    → init_config env flag ≡ ok path
    → Chosen env flag path × ((path ≡ []) ⊎ IsProtected env path)
unfolding init_config
init_config-Chosen env flag path h = elim (Bool-cases (is_empty flag)) [
  | inl e ↦ elim (Result-cases (resolve env)) [
    | inr (e', bad) ↦ absurd (ground arith)
    | inl (p, good) ↦
        let (same, guarded) = activate-ok env p path (ground arith) in
        (
          subst (λ f. Chosen env f path) (sym (eq-nil_of_empty flag e))
              (resolve-Chosen env path (good ∙ ap ok (sym same))),
          subst (λ q. (q ≡ []) ⊎ IsProtected env q) (sym same) guarded,
        )
  ]
  | inr e ↦ elim (Stat-cases (env.stat flag)) [
    | inr (inl missing) ↦ absurd (ground arith)
    | inr (inr (e', bad)) ↦ absurd (ground arith)
    | inl (mode, there) ↦
        let (same, guarded) = activate-ok env flag path (ground arith) in
        (
          by_flag (ne-nil_of_not_empty flag e) same,
          subst (λ q. (q ≡ []) ⊎ IsProtected env q) (sym same) guarded,
        )
  ]
]
