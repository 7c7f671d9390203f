-- ===== src/Files.antt =====
-- The part of package os that the configuration uses: files with permissions, and calls that fail.
-- Directories are not kept; a call that fails leaves the files as they were, but for a write.
use dddns.Prelude.{ℕ, ◌/◌, ◌%◌, ◌≡◌, ◌≢◌, Bool, true, ◌||◌, Option, none, some, arith}
use dddns.Prelude.Tests.{◌==◌, if◌then◌else◌}
use dddns.Prelude.Text.{Text, text_eq, text_eq_iff, text_eq_refl}

-- internal/constants/permissions.go.
abbrev pub config_file_perm : ℕ
config_file_perm = 0o600

abbrev pub secure_config_perm : ℕ
secure_config_perm = 0o400

abbrev pub config_dir_perm : ℕ
config_dir_perm = 0o700

abbrev pub cache_dir_perm : ℕ
cache_dir_perm = 0o755

abbrev pub cache_file_perm : ℕ
cache_file_perm = 0o600

pub record File : Type 0 where
  pub mode : ℕ
  pub content : Text

abbrev pub Files : Type 0
Files = Text → Option File

-- The store with one file put in, replaced or taken out.
abbrev pub put : Files → Text → Option File → Files
put fs path file p = if text_eq p path then file else fs p

-- The owner's write bit; `root` writes without it.
abbrev pub is_writable : Bool → ℕ → Bool
is_writable root mode = root || (mode / 128 % 2 == 1)

-- `os.WriteFile` on an existing file keeps its mode; on a new one it sets `perm`.
unfoldable pub written_file : Files → Text → Text → ℕ → File
written_file fs path content perm = elim (fs path) [
  | none ↦ record { mode = perm; content = content }
  | some f ↦ record { mode = f.mode; content = content }
]

-- May the file be opened for writing?
unfoldable pub may_write : Bool → Files → Text → Bool
may_write root fs path = elim (fs path) [ none ↦ true | some f ↦ is_writable root f.mode ]

pub put_self : (fs : Files) (path : Text) (file : Option File) → put fs path file path ≡ file
put_self fs path file = rw (text_eq_refl path)

pub put_other :
    (fs : Files) (path p : Text) (file : Option File) → p ≢ path → put fs path file p ≡ fs p
put_other fs path p file h = ground (arith, text_eq_iff p path)
