-- ===== src/Cmd/Wizard.antt =====
-- cmd/config.go: the dialogue that makes a configuration. The input is the list of lines that remain,
-- with what stands behind the last one; a prompt takes the next.
pub mod Mask
use dddns.Prelude.{
  ℕ, ◌-◌, ◌≡◌, Bool, true, false, not, ◌&&◌, ◌||◌, List, [], ◌∷◌, ◌++◌, map, Option, none, some,
}
use dddns.Prelude.Tests.{leb, ◌==◌, if◌then◌else◌}
use dddns.Prelude.Lists.{length, take, drop}
use dddns.Prelude.Int.{ℤ, pos, is_zero, is_positive}
use dddns.Prelude.Result.{Result, ok, err, ◌>>=◌, wrap}
use dddns.Prelude.Text.{Text, codes, text_eq, is_empty, trim_space, to_lower_ascii}
use dddns.Files.{File, Files}
use dddns.Config.{Config}
use dddns.Config.Plain.{
  PlainFaults, PlainError, mkdir_failed, write_plain, format_config_yaml, create_default,
}

unfoldable pub mask_key : Text → Text
mask_key key =
    if is_empty key
    then codes "not set"
    else if leb (length key) 8
    then codes "****"
    else take 4 key ++ (codes "****" ++ drop (length key - 4) key)

pub record Input : Type 0 where
  pub lines : List Text
  pub rest : Text

pub data WizardError : Type 0 where
  no_input : WizardError
  no_path : Text → WizardError
  already_there : WizardError
  no_credentials : WizardError
  not_saved : PlainError → WizardError

-- `readPrompt`: what stands behind the last line is an answer too, unless it is empty.
unfoldable pub read_prompt : Input → Result WizardError (Text × Input)
read_prompt i = elim i.lines [
  | line ∷ lines ↦ ok (trim_space line, record i { lines = lines })
  | [] ↦
      if not (is_empty i.rest)
      then ok (trim_space i.rest, record { lines = []; rest = [] })
      else err no_input
]

-- An empty answer keeps the value of before.
abbrev pub or_kept : Text → Text → Text
or_kept answer old = if is_empty answer then old else answer

-- A TTL that is no positive number is ignored; `parse_int` is `strconv.ParseInt`.
unfoldable pub choose_ttl : (parse_int : Text → Option ℤ) → Text → ℤ → ℤ
choose_ttl parse_int answer old =
    if is_empty answer
    then old
    else elim (parse_int answer) [ none ↦ old | some n ↦ if is_positive n then n else old ]

abbrev pub empty_config : Config
empty_config = record {
  aws_region = [];
  aws_access_key = [];
  aws_secret_key = [];
  hosted_zone_id = [];
  hostname = [];
  ttl = pos 0;
  ip_cache_file = [];
  ip_source = [];
  update_interval = [];
  update_timeout = [];
  server = none;
}

abbrev pub current : Option Config → Config
current none = empty_config
current (some c) = c

default_cache : Text → Result Text Text → Result WizardError Text
default_cache old cache_path =
    if is_empty old then elim cache_path [ err e ↦ err (no_path e) | ok path ↦ ok path ] else ok old

-- `promptConfig`, with the cache path of the profile. The empty configuration stands in for one that
-- is not there, so an empty answer keeps its empty value.
unfoldable pub prompt_config :
    (parse_int : Text → Option ℤ)
    → (cache_path : Result Text Text) → Option Config
    → Input
    → Result WizardError (Config × Input)
unfolding default_cache choose_ttl read_prompt
prompt_config parse_int cache_path existing i0 = do
  let cur = current existing
  (access_key, i1) ← read_prompt i0
  (secret_key, i2) ← read_prompt i1
  (region, i3) ← read_prompt i2
  (zone, i4) ← read_prompt i3
  (host, i5) ← read_prompt i4
  (ttl, i6) ← read_prompt i5
  cache ← default_cache cur.ip_cache_file cache_path
  (cache_file, i7) ← read_prompt i6
  ok (
    record {
      aws_region = or_kept region (or_kept cur.aws_region (codes "us-east-1"));
      aws_access_key = or_kept access_key cur.aws_access_key;
      aws_secret_key = or_kept secret_key cur.aws_secret_key;
      hosted_zone_id = or_kept zone cur.hosted_zone_id;
      hostname = or_kept host cur.hostname;
      ttl = choose_ttl parse_int ttl (if is_zero cur.ttl then pos 300 else cur.ttl);
      ip_cache_file = or_kept cache_file cache;
      ip_source = [];
      update_interval = [];
      update_timeout = [];
      server = none;
    },
    i7,
  )

-- An answer to the last question that saves.
is_yes : Text → Bool
is_yes answer =
    let s = map to_lower_ascii answer in
    is_empty s || (text_eq s (codes "yes") || text_eq s (codes "y"))

write_answers : PlainFaults → Config → Text → Files → Files × Result WizardError (Unit {0})
write_answers f cfg path fs = elim f.mkdir [
  | some e ↦ (fs, err (not_saved (mkdir_failed e)))
  | none ↦
      let (fs', saved) = write_plain f path (format_config_yaml cfg) fs in
      elim saved [ err e ↦ (fs', err (not_saved e)) | ok _ ↦ (fs', ok tt) ]
]

-- The end of `runInteractiveConfig`, on the answers.
unfoldable pub confirm :
    PlainFaults → Text → Config × Input → Files → Files × Result WizardError (Unit {0})
unfolding write_answers is_yes
confirm f path (cfg, i) fs =
    if is_empty cfg.aws_access_key || is_empty cfg.aws_secret_key
    then (fs, err no_credentials)
    else elim (read_prompt i) [
      | err e ↦ (fs, err e)
      | ok (answer, _) ↦ if is_yes answer then write_answers f cfg path fs else (fs, ok tt)
    ]

-- `runInteractiveConfig`; `unmarshal` reads the file that is there.
unfoldable pub run_interactive_config :
    (unmarshal : Text → Option Config)
    → (parse_int : Text → Option ℤ) → (cache_path : Result Text Text) → PlainFaults
    → (unreadable : Bool) → Text
    → Input
    → Files
    → Files × Result WizardError (Unit {0})
run_interactive_config unmarshal parse_int cache_path f unreadable path i fs =
    let existing : Option Config = elim (fs path) [
      | none ↦ none
      | some file ↦ if unreadable then none else unmarshal file.content
    ] in
    elim (prompt_config parse_int cache_path existing i) [
      | err e ↦ (fs, err e)
      | ok answers ↦ confirm f path answers fs
    ]

is_there : Option File → Bool
is_there none = false
is_there (some file) = true

-- `runConfigInit` on the path of the file: the dialogue, or a default file.
unfoldable pub run_config_init :
    (unmarshal : Text → Option Config)
    → (parse_int : Text → Option ℤ) → (cache_path : Result Text Text) → PlainFaults
    → (unreadable force interactive : Bool) → Text
    → Input
    → Files
    → Files × Result WizardError (Unit {0})
unfolding is_there
run_config_init unmarshal parse_int cache_path f unreadable force interactive path i fs =
    if is_there (fs path) && (not force && not interactive)
    then (fs, err already_there)
    else if interactive
    then run_interactive_config unmarshal parse_int cache_path f unreadable path i fs
    else (let (fs', made) = create_default f cache_path path fs in (fs', wrap not_saved made))
