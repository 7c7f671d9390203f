-- ===== src/Server/Status/Atomic.antt =====
-- No reader of the status file of internal/server/status.go sees a part of it.
use dddns.Prelude.{◌≡◌, ◌≢◌, ◌++◌, inl, inr, refl, [], ◌∷◌, Option, none, some, arith}
use dddns.Prelude.Lists.{All}
use dddns.Prelude.Result.{Result, ok, err}
use dddns.Prelude.Text.{Text}
use dddns.Files.{File, Files, put}
use dddns.Server.Handler.{StatusSnapshot}
use dddns.Server.Status.{
  StatusFaults, StatusCodec, StatusError, Trace, last_of, replace, write, read_status, temporary,
  discard, create_failed, write_failed, close_failed, rename_failed,
}
use dddns.Prelude.Tests.{Option-cases}
use dddns.Files.{put_other}
use dddns.Server.Status.{create_failed}
use dddns.Prelude.{◌∙◌}
use dddns.Prelude.Tests.{Bool-cases}
use dddns.Files.{put_self}
use mathlib.Core.Path.{subst}

-- The status file at one moment: as it was, or complete.
pub data IsWhole (path : Text) (before : Option File) (content : Text) (fs : Files) : Type 0 where
  as_before : fs path ≡ before → IsWhole path before content fs
  complete :
      fs path ≡ some (record { mode = 0o600; content = content }) → IsWhole path before content fs

-- The outcome of a write: at each moment of it the file is whole; it holds the new content if the
-- write succeeds, and the old one if it fails.
pub record IsAtomic (path content : Text) (fs : Files) (x : Trace × Result StatusError (Unit {0}))
    : Type 0 where
  pub whole : All (IsWhole path (fs path) content) x.0
  pub done : x.1 ≡ ok tt → (last_of fs x.0) path ≡ some (record { mode = 0o600; content = content })
  pub kept : (e : StatusError) → x.1 ≡ err e → (last_of fs x.0) path ≡ fs path

module _ (f : StatusFaults) (path tmp content : Text) (fs : Files) (apart : path ≢ tmp) where
  abbrev Kept : Trace → Type 0
  Kept = All (λ t. t path ≡ fs path)

  put-Kept : (t : Files) (file : Option File) → t path ≡ fs path → put t tmp file path ≡ fs path
  put-Kept t file h = put_other t tmp path file apart ∙ h

  discard-Kept : (trace : Trace) → Kept trace → Kept (discard f tmp trace)
  unfolding discard
  discard-Kept [] h = tt
  discard-Kept (t ∷ trace) (h, hs) = elim (Bool-cases f.remove_fails) [
    | inl e ↦ rw e (h, hs)
    | inr e ↦ rw e (put-Kept t none h, (h, hs))
  ]

  last-Kept : (trace : Trace) → Kept trace → last_of fs trace path ≡ fs path
  last-Kept [] h = refl
  last-Kept (t ∷ trace) (h, hs) = h

  IsWhole-Kept : (trace : Trace) → Kept trace → All (IsWhole path (fs path) content) trace
  IsWhole-Kept [] h = tt
  IsWhole-Kept (t ∷ trace) (h, hs) = (as_before h, IsWhole-Kept trace hs)

  failed-IsAtomic :
      (trace : Trace) (e : StatusError) → Kept trace → IsAtomic path content fs (trace, err e)
  failed-IsAtomic trace e h = record {
    whole = IsWhole-Kept trace h;
    done = λ bad. cc bad;
    kept = λ e' _. last-Kept trace h;
  }

  abbrev created : Files
  created = put fs tmp (some (temporary []))

  created-Kept : created path ≡ fs path
  created-Kept = put-Kept fs (some (temporary [])) refl

  abbrev with_content : Text → Files
  with_content s = put created tmp (some (temporary s))

  two-Kept : (s : Text) → Kept (with_content s ∷ created ∷ [])
  two-Kept s = (put-Kept created (some (temporary s)) created-Kept, (created-Kept, tt))

  abbrev success : Trace × Result StatusError (Unit {0})
  success = (
    put (put (with_content content) tmp none) path (some (temporary content))
        ∷ with_content content
        ∷ created
        ∷ [],
    ok tt,
  )

  success-IsAtomic : IsAtomic path content fs success
  success-IsAtomic =
      let stored = put_self (put (with_content content) tmp none) path (some (temporary content)) in
      record {
        whole = (
          complete stored,
          IsWhole-Kept (with_content content ∷ created ∷ []) (two-Kept content),
        );
        done = λ _. stored;
        kept = λ e bad. cc bad;
      }

  moved :
      (x : Trace × Result StatusError (Unit {0}))
      → IsAtomic path content fs x
      → x ≡ replace f path tmp content fs
      → IsAtomic path content fs (replace f path tmp content fs)
  moved x h e = subst (IsAtomic path content fs) e h

  given_up :
      (e : StatusError) (s : Text)
      → (discard f tmp (with_content s ∷ created ∷ []), err e) ≡ replace f path tmp content fs
      → IsAtomic path content fs (replace f path tmp content fs)
  given_up e s same =
      moved (discard f tmp (with_content s ∷ created ∷ []), err e)
        (failed-IsAtomic (discard f tmp (with_content s ∷ created ∷ [])) e
          (discard-Kept (with_content s ∷ created ∷ []) (two-Kept s)))
        same

  replace-IsAtomic : IsAtomic path content fs (replace f path tmp content fs)
  unfolding replace
  replace-IsAtomic = elim (Option-cases f.create) [
    | inr (e, bad) ↦
        moved ([], err (create_failed e)) (failed-IsAtomic [] (create_failed e) tt) (ground arith)
    | inl fine ↦ elim (Option-cases f.write) [
      | inr (e, bad) ↦ given_up (write_failed e) f.partial (ground arith)
      | inl fine' ↦ elim (Option-cases f.close) [
        | inr (e, bad) ↦ given_up (close_failed e) content (ground arith)
        | inl fine'' ↦ elim (Option-cases f.rename) [
          | inr (e, bad) ↦ given_up (rename_failed e) content (ground arith)
          | inl good ↦ moved success success-IsAtomic (ground arith)
        ]
      ]
    ]
  ]

-- A write of the status is atomic: after each of its calls the status file is the one of before or
-- the complete new one, whichever calls fail; it is the new one at the end if the write succeeds, and
-- the old one if it fails. The temporary file has a name of its own.
pub write-IsAtomic :
    (x : StatusCodec) (f : StatusFaults) (path tmp : Text) (snap : StatusSnapshot) (fs : Files)
    (s : Text)
    → path ≢ tmp
    → x.marshal snap ≡ ok s
    → IsAtomic path (s ++ 10 ∷ []) fs (write x f path tmp snap fs)
unfolding write
write-IsAtomic x f path tmp snap fs s apart good =
    rw (good, write) (replace-IsAtomic f path tmp (s ++ 10 ∷ []) fs apart)

-- The snapshot of a write that succeeds is the one that is read afterwards. The encoding of the
-- snapshot reads back, the temporary file has a name of its own, and the read is not disturbed.
pub read_status-write :
    (x : StatusCodec) (f g : StatusFaults) (path tmp : Text) (snap : StatusSnapshot) (fs : Files)
    (s : Text)
    → path ≢ tmp
    → x.marshal snap ≡ ok s
    → x.unmarshal (s ++ 10 ∷ []) ≡ some snap
    → g.read ≡ none
    → (write x f path tmp snap fs).1 ≡ ok tt
    → read_status x g path (last_of fs (write x f path tmp snap fs).0) ≡ ok snap
unfolding read_status
read_status-write x f g path tmp snap fs s apart good back clear h =
    rw ((write-IsAtomic x f path tmp snap fs s apart good).done h, read_status) (rw (clear, back))
