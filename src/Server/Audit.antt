-- ===== src/Server/Audit.antt =====
-- internal/server/audit.go: the audit log as a file that is rotated at a size. The JSON encoder is a
-- parameter, and so is which calls of the operating system fail.
pub mod Rotation
use dddns.Prelude.{ℕ, ◌≡◌, Bool, true, not, List, [], ◌∷◌, ◌++◌, Option, none, some}
use dddns.Prelude.Tests.{leb, if◌then◌else◌}
use dddns.Prelude.Lists.{length}
use dddns.Prelude.Result.{Result, ok, err}
use dddns.Prelude.Text.{Text, codes}
use dddns.Files.{File, Files, put}
use dddns.Server.Handler.{AuditEntry}
use dddns.Prelude.{◌&&◌, ◌*◌}

pub data AuditError : Type 0 where
  marshal_failed open_failed write_failed : Text → AuditError

-- Which calls fail; a write that fails has appended a part of the line.
pub record AuditFaults : Type 0 where
  pub rename_fails : Bool
  pub cannot_open : Option Text
  pub write : Option Text
  pub partial : Text

-- The log of a path. `marshal` is given the time as well.
pub record AuditLog : Type 0 where
  pub path : Text
  pub max_size : ℕ
  pub marshal : ℕ → AuditEntry → Result Text Text

abbrev pub audit_max_size : ℕ
audit_max_size = 10 * 1024 * 1024

unfoldable pub new_audit_log : Text → (ℕ → AuditEntry → Result Text Text) → AuditLog
new_audit_log path marshal = record { path = path; max_size = audit_max_size; marshal = marshal }

-- `path + ".old"`.
abbrev pub old_path : AuditLog → Text
old_path a = a.path ++ codes ".old"

-- `os.Stat` and `os.Rename`; a rename that fails is ignored.
unfoldable pub rotate : AuditLog → AuditFaults → Files → Files
rotate a f fs = elim (fs a.path) [
  | none ↦ fs
  | some log ↦
      if leb a.max_size (length log.content) && not f.rename_fails
      then put (put fs a.path none) (old_path a) (some log)
      else fs
]

-- The file with more at its end; a file that is not there is created.
appended : Option File → Text → File
appended none s = record { mode = 0o600; content = s }
appended (some f) s = record f { content = f.content ++ s }

unfoldable pub append_line :
    AuditLog → AuditFaults → Text → Files → Files × Result AuditError (Unit {0})
unfolding appended
append_line a f line fs = elim f.cannot_open [
  | some e ↦ (fs, err (open_failed e))
  | none ↦ elim f.write [
    | some e ↦ (put fs a.path (some (appended (fs a.path) f.partial)), err (write_failed e))
    | none ↦ (put fs a.path (some (appended (fs a.path) line)), ok tt)
  ]
]

-- `AuditLog.Write` at the time `now`.
unfoldable pub write :
    AuditLog → AuditFaults → ℕ → AuditEntry → Files → Files × Result AuditError (Unit {0})
write a f now entry fs =
    let fs' = rotate a f fs in
    elim (a.marshal now entry) [
      | err e ↦ (fs', err (marshal_failed e))
      | ok s ↦ append_line a f (s ++ 10 ∷ []) fs'
    ]
