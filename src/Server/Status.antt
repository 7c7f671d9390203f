-- ===== src/Server/Status.antt =====
-- internal/server/status.go: the status file, which is replaced as a whole. The JSON codec is a
-- parameter, and so is which calls of the operating system fail.
pub mod Atomic
use dddns.Prelude.{ℕ, ◌≡◌, Bool, List, [], ◌∷◌, ◌++◌, Option, none, some}
use dddns.Prelude.Tests.{if◌then◌else◌}
use dddns.Prelude.Result.{Result, ok, err}
use dddns.Prelude.Text.{Text}
use dddns.Files.{File, Files, put}
use dddns.Server.Handler.{StatusSnapshot}

pub data StatusError : Type 0 where
  marshal_failed create_failed write_failed close_failed rename_failed read_failed :
      Text → StatusError
  parse_failed : StatusError

-- Which calls fail; a write that fails leaves the content `partial`. A failure to remove the
-- temporary file is ignored.
pub record StatusFaults : Type 0 where
  pub create : Option Text
  pub write : Option Text
  pub partial : Text
  pub close : Option Text
  pub rename : Option Text
  pub remove_fails : Bool
  pub read : Option Text

pub record StatusCodec : Type 0 where
  pub marshal : StatusSnapshot → Result Text Text
  pub unmarshal : Text → Option StatusSnapshot

-- The stores after each call, the latest first, down to the one before all.
abbrev pub Trace : Type 0
Trace = List Files

abbrev pub last_of : Files → Trace → Files
last_of fs [] = fs
last_of fs (fs' ∷ _) = fs'

-- `os.Remove(tmpName)` on the way out.
discard : StatusFaults → Text → Trace → Trace
discard f tmp [] = []
discard f tmp (fs ∷ trace) = if f.remove_fails then fs ∷ trace else put fs tmp none ∷ fs ∷ trace

abbrev temporary : Text → File
temporary s = record { mode = 0o600; content = s }

unfoldable pub replace :
    StatusFaults → (path tmp content : Text) → Files → Trace × Result StatusError (Unit {0})
unfolding discard
replace f path tmp content fs = elim f.create [
  | some e ↦ ([], err (create_failed e))
  | none ↦
      let created = put fs tmp (some (temporary [])) in
      elim f.write [
        | some e ↦ (
          discard f tmp (put created tmp (some (temporary f.partial)) ∷ created ∷ []),
          err (write_failed e),
        )
        | none ↦
            let filled = put created tmp (some (temporary content)) in
            elim f.close [
              | some e ↦ (discard f tmp (filled ∷ created ∷ []), err (close_failed e))
              | none ↦ elim f.rename [
                | some e ↦ (discard f tmp (filled ∷ created ∷ []), err (rename_failed e))
                | none ↦ (
                  put (put filled tmp none) path (some (temporary content)) ∷ filled ∷ created ∷ [],
                  ok tt,
                )
              ]
            ]
      ]
]

module _ (x : StatusCodec) where
  -- `StatusWriter.Write`, where `tmp` is the name that `os.CreateTemp` finds.
  unfoldable pub write :
      StatusFaults
      → (path tmp : Text) → StatusSnapshot
      → Files
      → Trace × Result StatusError (Unit {0})
  unfolding replace
  write f path tmp snap fs = elim (x.marshal snap) [
    | err e ↦ ([], err (marshal_failed e))
    | ok s ↦ replace f path tmp (s ++ 10 ∷ []) fs
  ]

  unfoldable pub read_status : StatusFaults → Text → Files → Result StatusError StatusSnapshot
  read_status f path fs = elim (fs path) [
    | none ↦ err (read_failed [])
    | some file ↦ elim f.read [
      | some e ↦ err (read_failed e)
      | none ↦ elim (x.unmarshal file.content) [ none ↦ err parse_failed | some snap ↦ ok snap ]
    ]
  ]
