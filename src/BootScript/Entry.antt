-- ===== src/BootScript/Entry.antt =====
-- The cron table that a script of internal/bootscript/bootscript.go installs.
use dddns.Prelude.{
  ℕ, ◌≡◌, refl, Bool, true, false, not, ◌&&◌, List, [], ◌∷◌, ◌++◌, Option, none, some, arith,
}
use dddns.Prelude.Tests.{◌==◌, if◌then◌else◌, Bool-cases}
use dddns.Prelude.Lists.{All, length, length-append, keep}
use dddns.Prelude.Text.{Text, codes, text_eq, split, Lacks, has_prefix}
use dddns.BootScript.Lines.{
  unlines, quote, quote_bytes, quote_byte, header_start, header_end, cron_start, cron_end,
  serve_tail,
}
use dddns.BootScript.{Params, common_header, cron_entry, cron_lines, render_cron, render_serve}
use dddns.Prelude.{inr}
use dddns.Prelude.{inl}
use dddns.Prelude.{ap, ◌∙◌}
use dddns.Prelude.Lists.{length}
use dddns.Prelude.Text.{text_eq_iff}
use dddns.Prelude.Lists.{length-append}

-- The lines of a here document, up to the one that ends it.
until : Text → List Text → Option (List Text)
until end [] = none
until end (l ∷ ls) =
    let rest : Option (List Text) = elim (until end ls) [
      | none ↦ none
      | some body ↦ some (l ∷ body)
    ] in
    if text_eq l end then some [] else rest

-- The lines between the first line `opener` and the next line `end`.
unfoldable pub here_document : (opener end : Text) → List Text → Option (List Text)
unfolding until
here_document opener end [] = none
here_document opener end (l ∷ ls) =
    let rest = here_document opener end ls in if text_eq l opener then until end ls else rest

split-line : (l rest : Text) → Lacks 10 l → split 10 (l ++ 10 ∷ rest) ≡ l ∷ split 10 rest
unfolding split
split-line [] rest h = ground arith
split-line (c ∷ l) rest (h, hs) = ground (arith, split-line l rest hs)

-- The lines of a text are those that it was made of.
split-unlines : (ls : List Text) → All (Lacks 10) ls → split 10 (unlines ls) ≡ ls ++ [] ∷ []
unfolding unlines split
split-unlines [] h = refl
split-unlines (l ∷ ls) (h, hs) = ground (arith, split-line l (unlines ls) h, split-unlines ls hs)

lacks : Text → Bool
lacks [] = true
lacks (c ∷ s) = not (c == 10) && lacks s

all_lack : List Text → Bool
all_lack [] = true
all_lack (l ∷ ls) = lacks l && all_lack ls

lacks_sound : (s : Text) → lacks s ≡ true → Lacks 10 s
unfolding lacks
lacks_sound [] h = tt
lacks_sound (c ∷ s) h = (λ e. ground arith, lacks_sound s (ground arith))

all_lack_sound : (ls : List Text) → all_lack ls ≡ true → All (Lacks 10) ls
unfolding all_lack
all_lack_sound [] h = tt
all_lack_sound (l ∷ ls) h = (lacks_sound l (ground arith), all_lack_sound ls (ground arith))

lacks-append : (s t : Text) → lacks s ≡ true → lacks t ≡ true → lacks (s ++ t) ≡ true
unfolding lacks
lacks-append [] t h k = k
lacks-append (c ∷ s) t h k = ground (arith, lacks-append s t)

lacks_complete : (s : Text) → Lacks 10 s → lacks s ≡ true
unfolding lacks
lacks_complete [] h = refl
lacks_complete (c ∷ s) (h, hs) = ground (arith, lacks_complete s hs)

lacks-quote_byte : (c : ℕ) → lacks (quote_byte c) ≡ true
unfolding lacks quote_byte
lacks-quote_byte c = ground arith

lacks-quote_bytes : (s : Text) → lacks (quote_bytes s) ≡ true
unfolding lacks quote_bytes
lacks-quote_bytes [] = refl
lacks-quote_bytes (c ∷ s) =
    lacks-append (quote_byte c) (quote_bytes s) (lacks-quote_byte c) (lacks-quote_bytes s)

-- A quoted path is on one line.
lacks-quote : (s : Text) → lacks (quote s) ≡ true
unfolding lacks quote
lacks-quote s = lacks-append (quote_bytes s) (b'"' ∷ []) (lacks-quote_bytes s) refl

cron_lines-Lacks : (p : Params) → Lacks 10 p.update_interval → all_lack (cron_lines p) ≡ true
unfolding all_lack lacks cron_lines common_header header_start header_end cron_start cron_end
cron_lines-Lacks p h = rw (
  lacks-quote p.binary_path,
  lacks-quote p.config_dir,
  lacks-quote p.cron_entry_path,
  lacks-append p.update_interval _ (lacks_complete _ h) refl,
)

-- The line of the script that opens the here document of the cron table.
abbrev pub opener : Text
opener = codes "cat > \"$CRON_PATH\" <<'CRON'"

-- What cron is to find in its table: two settings, and one entry with the five fields of the schedule,
-- the user, and the command of an update, whose output goes to the journal.
abbrev pub cron_table : Text → List Text
cron_table interval =
    codes "SHELL=/bin/bash"
    ∷ codes "PATH=/usr/local/sbin:/usr/local/bin:/usr/sbin:/usr/bin:/sbin:/bin"
    ∷ (interval
        ++ codes " root /usr/local/bin/dddns update --quiet 2>&1 | /usr/bin/logger -t dddns")
    ∷ []

-- An entry of the table is not the end of it.
cron_entry-ne-end : (interval : Text) → text_eq (cron_entry interval) (codes "CRON") ≡ false
cron_entry-ne-end interval = elim (Bool-cases (text_eq (cron_entry interval) (codes "CRON"))) [
  | inr e ↦ e
  | inl e ↦
      let same = ap length ((text_eq_iff _ _).0 e) in
      absurd (omega (arith, same, length-append interval (cron_entry [])))
]

here_document-cron_lines :
    (p : Params)
    → here_document opener (codes "CRON") (cron_lines p ++ [] ∷ [])
      ≡ some (cron_table p.update_interval)
unfolding here_document cron_lines common_header header_start header_end cron_start cron_end text_eq
    quote
here_document-cron_lines p = rw (cron_entry-ne-end p.update_interval) refl

-- In the script of cron mode, the lines between the first `cat > "$CRON_PATH" <<'CRON'` and the next
-- line `CRON` are exactly three: SHELL and PATH, and the schedule with root as the user and the
-- command `/usr/local/bin/dddns update --quiet`, piped to the logger; whatever the paths of the script
-- are. The schedule is one line.
pub here_document-render_cron :
    (p : Params)
    → Lacks 10 p.update_interval
    → here_document opener (codes "CRON") (split 10 (render_cron p))
      ≡ some (cron_table p.update_interval)
unfolding render_cron
here_document-render_cron p h =
    rw (split-unlines (cron_lines p) (all_lack_sound (cron_lines p) (cron_lines-Lacks p h)))
      (here_document-cron_lines p)

-- The line of the script that opens the here document of the systemd unit.
abbrev pub unit_opener : Text
unit_opener = codes "cat > \"$SYSTEMD_UNIT\" <<'UNIT'"

-- The lines of the unit that say what it starts.
started_in : List Text → Option (List Text)
started_in ls = elim (here_document unit_opener (codes "UNIT") ls) [
  | none ↦ none
  | some unit ↦ some (keep (has_prefix (codes "ExecStart=")) unit)
]

unfoldable pub started_by : Text → Option (List Text)
unfolding started_in
started_by content = started_in (split 10 content)

serve_lines-Lacks : (p : Params) → all_lack (common_header p ++ serve_tail) ≡ true
unfolding all_lack lacks common_header header_start header_end serve_tail
serve_lines-Lacks p =
    rw (lacks-quote p.binary_path, lacks-quote p.config_dir, lacks-quote p.cron_entry_path) refl

started_in-serve_lines :
    (p : Params)
    → started_in ((common_header p ++ serve_tail) ++ [] ∷ [])
      ≡ some (codes "ExecStart=/usr/local/bin/dddns serve" ∷ [])
unfolding started_in here_document common_header header_start header_end serve_tail text_eq quote
    has_prefix
started_in-serve_lines p = refl

-- The unit in the script of serve mode starts the command `serve`, and nothing else.
pub started_by-render_serve :
    (p : Params)
    → started_by (render_serve p) ≡ some (codes "ExecStart=/usr/local/bin/dddns serve" ∷ [])
unfolding render_serve started_by
started_by-render_serve p =
    let ls = common_header p ++ serve_tail in
    ap started_in (split-unlines ls (all_lack_sound ls (serve_lines-Lacks p)))
    ∙ started_in-serve_lines p
