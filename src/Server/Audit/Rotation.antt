-- ===== src/Server/Audit/Rotation.antt =====
-- What the audit log of internal/server/audit.go keeps, and how large it grows.
use dddns.Prelude.{
  ℕ, ◌&&◌, not, ◌∙◌, ◌+◌, ◌≤◌, ◌<◌, ◌≡◌, ◌≢◌, ◌⊎◌, inl, inr, ap, List, [], ◌∷◌, ◌++◌, Option, none,
  some, false, arith,
}
use dddns.Prelude.Tests.{Bool-cases, Option-cases, leb}
use dddns.Prelude.Lists.{length, All, length-append}
use dddns.Prelude.Result.{ok, Result-cases}
use dddns.Prelude.Text.{Text, codes, text_eq_iff, text_eq_refl}
use dddns.Files.{File, Files, put}
use dddns.Server.Handler.{AuditEntry}
use dddns.Server.Audit.{AuditLog, AuditFaults, old_path, rotate, appended, append_line, write}
use dddns.Prelude.{◌∙◌}

old_path-ne : (a : AuditLog) → a.path ≢ old_path a
old_path-ne a e = absurd (omega (arith, ap length e, length-append a.path (codes ".old")))

abbrev pub content_of : Option File → Text
content_of none = []
content_of (some file) = file.content

-- What a write of a line leaves of the log and of its predecessor: one line more in the log, or the
-- whole log in the place of the predecessor and the line alone in a new log.
pub data Wrote (a : AuditLog) (line : Text) (before after : Files) : Type 0 where
  longer :
      content_of (after a.path) ≡ content_of (before a.path) ++ line
      → after (old_path a) ≡ before (old_path a)
      → Wrote a line before after
  rotated :
      a.max_size ≤ length (content_of (before a.path))
      → content_of (after a.path) ≡ line
      → after (old_path a) ≡ before a.path
      → Wrote a line before after

-- The store before the line is appended: as it was, or rotated.
rotate-cases :
    (a : AuditLog) (f : AuditFaults) (fs : Files)
    → (rotate a f fs ≡ fs)
      ⊎ ((log : File) × (fs a.path ≡ some log)
          × (a.max_size ≤ length log.content)
          × (rotate a f fs ≡ put (put fs a.path none) (old_path a) (some log)))
unfolding rotate
rotate-cases a f fs = elim (Option-cases (fs a.path)) [
  | inl e ↦ inl (ground arith)
  | inr (log, e) ↦ elim (Bool-cases (leb a.max_size (length log.content) && not f.rename_fails)) [
    | inl full ↦ inr (log, e, ground arith, ground arith)
    | inr room ↦ inl (ground arith)
  ]
]

append_line-Wrote :
    (a : AuditLog) (f : AuditFaults) (line : Text) (fs : Files)
    → (append_line a f line fs).1 ≡ ok tt
    → (content_of ((append_line a f line fs).0 a.path) ≡ content_of (fs a.path) ++ line)
      × ((append_line a f line fs).0 (old_path a) ≡ fs (old_path a))
unfolding append_line appended
append_line-Wrote a f line fs h = (
  ground (arith, text_eq_refl a.path),
  ground (arith, text_eq_iff (old_path a) a.path, old_path-ne a),
)

-- From the rotation on, when there is a line to write.
line-Wrote :
    (a : AuditLog) (f : AuditFaults) (line : Text) (fs : Files)
    → (append_line a f line (rotate a f fs)).1 ≡ ok tt
    → Wrote a line fs (append_line a f line (rotate a f fs)).0
line-Wrote a f line fs h =
    let (more, old) = append_line-Wrote a f line (rotate a f fs) h in
    elim (rotate-cases a f fs) [
      | inl same ↦
          longer (more ∙ ap (λ t. content_of (t a.path) ++ line) same)
            (old ∙ ap (λ t. t (old_path a)) same)
      | inr (log, there, full, moved) ↦
          rotated (ground arith)
            (more
              ∙ ground (arith, text_eq_refl a.path, text_eq_iff a.path (old_path a), old_path-ne a))
            (old ∙ ground (arith, text_eq_refl (old_path a)))
    ]

-- A write that succeeds adds exactly the line of its entry to the log. The log of before stays in
-- front of it or, when it has reached its size, becomes the old log as a whole.
pub write-Wrote :
    (a : AuditLog) (f : AuditFaults) (now : ℕ) (entry : AuditEntry) (fs : Files)
    → (write a f now entry fs).1 ≡ ok tt
    → (s : Text) × (a.marshal now entry ≡ ok s)
      × Wrote a (s ++ 10 ∷ []) fs (write a f now entry fs).0
unfolding write
write-Wrote a f now entry fs h = elim (Result-cases (a.marshal now entry)) [
  | inr (e, bad) ↦ absurd (ground arith)
  | inl (s, good) ↦
      (s, good, rw (good, write) (line-Wrote a f (s ++ 10 ∷ []) fs (rw (good, write) at h)))
]

-- A sequence of writes, each with its faults, its time and its entry.
unfoldable pub write_all : AuditLog → List (AuditFaults × ℕ × AuditEntry) → Files → Files
write_all a [] fs = fs
write_all a ((f, now, entry) ∷ rest) fs = write_all a rest (write a f now entry fs).0

-- The log and its predecessor are at most this long.
pub record IsBounded (a : AuditLog) (bound : ℕ) (fs : Files) : Type 0 where
  pub log : length (content_of (fs a.path)) ≤ bound
  pub old : length (content_of (fs (old_path a))) ≤ bound

-- The rename works, and the line, or what a failing write leaves of one, has at most `n` bytes.
pub record IsSmall (a : AuditLog) (n : ℕ) (x : AuditFaults × ℕ × AuditEntry) : Type 0 where
  pub renames : x.0.rename_fails ≡ false
  pub partial : length x.0.partial ≤ n
  pub line : (s : Text) → a.marshal x.1 x.2 ≡ ok s → length s < n

-- After the rotation the log has not reached its size.
rotate-bound :
    (a : AuditLog) (f : AuditFaults) (n : ℕ) (fs : Files)
    → f.rename_fails ≡ false
    → length (content_of (fs a.path)) ≤ a.max_size + n
    → length (content_of (fs (old_path a))) ≤ a.max_size + n
    → (length (content_of (rotate a f fs a.path)) ≤ a.max_size)
      × (length (content_of (rotate a f fs (old_path a))) ≤ a.max_size + n)
unfolding rotate
rotate-bound a f n fs renames l o = elim (Option-cases (fs a.path)) [
  | inl e ↦ (ground arith, ground arith)
  | inr (log, e) ↦ elim (Bool-cases (leb a.max_size (length log.content))) [
    | inl full ↦ (
      ground (arith, text_eq_refl a.path, text_eq_iff a.path (old_path a), old_path-ne a),
      ground (arith, text_eq_refl (old_path a)),
    )
    | inr room ↦ (ground arith, ground arith)
  ]
]

append_line-IsBounded :
    (a : AuditLog) (f : AuditFaults) (line : Text) (n : ℕ) (fs : Files)
    → length line ≤ n
    → length f.partial ≤ n
    → length (content_of (fs a.path)) ≤ a.max_size
    → length (content_of (fs (old_path a))) ≤ a.max_size + n
    → IsBounded a (a.max_size + n) (append_line a f line fs).0
unfolding append_line appended
append_line-IsBounded a f line n fs small part l o = record {
  log = elim (Option-cases (fs a.path)) [
    | inl e ↦ ground (arith, text_eq_refl a.path)
    | inr (log, e) ↦ ground (
      arith,
      text_eq_refl a.path,
      length-append log.content line,
      length-append log.content f.partial,
    )
  ];
  old = ground (arith, text_eq_iff (old_path a) a.path, old_path-ne a);
}

write-IsBounded :
    (a : AuditLog) (n : ℕ) (x : AuditFaults × ℕ × AuditEntry) (fs : Files)
    → IsSmall a n x
    → IsBounded a (a.max_size + n) fs
    → IsBounded a (a.max_size + n) (write a x.0 x.1 x.2 fs).0
unfolding write
write-IsBounded a n x fs small b =
    let (l, o) = rotate-bound a x.0 n fs small.renames b.log b.old in
    elim (Result-cases (a.marshal x.1 x.2)) [
      | inr (e, bad) ↦ rw (bad, write) (record { log = omega arith; old = o })
      | inl (s, good) ↦
          rw (good, write)
            (append_line-IsBounded a x.0 (s ++ 10 ∷ []) n (rotate a x.0 fs)
              (omega (arith, small.line s good, length-append s (10 ∷ []))) small.partial l o)
    ]

-- The audit log and its predecessor never grow longer than the size of a rotation and one line,
-- however many entries are written and whichever of the writes fail. The renames work, and a line has
-- at most `n` bytes with its end.
pub write_all-IsBounded :
    (a : AuditLog) (n : ℕ) (entries : List (AuditFaults × ℕ × AuditEntry)) (fs : Files)
    → All (IsSmall a n) entries
    → IsBounded a (a.max_size + n) fs
    → IsBounded a (a.max_size + n) (write_all a entries fs)
unfolding write_all
write_all-IsBounded a n [] fs h b = b
write_all-IsBounded a n ((f, now, entry) ∷ rest) fs (small, h) b =
    write_all-IsBounded a n rest (write a f now entry fs).0 h
      (write-IsBounded a n (f, now, entry) fs small b)

-- A write touches no other file.
pub write-other :
    (a : AuditLog) (f : AuditFaults) (now : ℕ) (entry : AuditEntry) (q : Text) (fs : Files)
    → q ≢ a.path
    → q ≢ old_path a
    → (write a f now entry fs).0 q ≡ fs q
unfolding write rotate append_line
write-other a f now entry q fs h k =
    ground (arith, text_eq_iff q a.path, text_eq_iff q (old_path a))
