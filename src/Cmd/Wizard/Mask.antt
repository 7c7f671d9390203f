-- ===== src/Cmd/Wizard/Mask.antt =====
-- What cmd/config.go shows of a key, and what it keeps of a configuration.
use dddns.Prelude.{
  ◌-◌, ◌≤◌, ◌<◌, ◌≡◌, ◌≢◌, refl, sym, ◌∙◌, ◌++◌, false, List, [], ◌∷◌, Option, none, some, arith,
}
use dddns.Prelude.Int.{ℤ, is_zero}
use dddns.Prelude.Lists.{length, take, drop, All}
use dddns.Prelude.Result.{Result, ok}
use dddns.Prelude.Text.{Text, codes, is_empty, trim_space}
use dddns.Config.{Config}
use dddns.Cmd.Wizard.{mask_key, prompt_config}

-- Two keys that differ at most in what stands between their first four and their last four bytes, or
-- that both have at most eight.
pub data LookAlike (a b : Text) : Type 0 where
  short : a ≢ [] → b ≢ [] → length a ≤ 8 → length b ≤ 8 → LookAlike a b
  long :
      8 < length a
      → 8 < length b
      → take 4 a ≡ take 4 b
      → drop (length a - 4) a ≡ drop (length b - 4) b
      → LookAlike a b

shown : Text → Text
shown key = take 4 key ++ (codes "****" ++ drop (length key - 4) key)

shown-eq :
    (a b : Text)
    → take 4 a ≡ take 4 b
    → drop (length a - 4) a ≡ drop (length b - 4) b
    → shown a ≡ shown b
unfolding shown
shown-eq a b front back = cc (front, back)

mask_key_short : (key : Text) → key ≢ [] → length key ≤ 8 → mask_key key ≡ codes "****"
unfolding mask_key
mask_key_short [] h l = absurd (h refl)
mask_key_short (c ∷ key) h l = ground arith

mask_key_long : (key : Text) → 8 < length key → mask_key key ≡ shown key
unfolding mask_key shown
mask_key_long [] l = absurd (omega arith)
mask_key_long (c ∷ key) l = ground arith

-- A key is masked so that at most its first four and its last four bytes show, of a key of up to eight
-- bytes none: keys that differ elsewhere look the same.
pub mask_key-LookAlike : (a b : Text) → LookAlike a b → mask_key a ≡ mask_key b
unfolding mask_key
mask_key-LookAlike a b h = elim h [
  | short x y l m ↦ mask_key_short a x l ∙ sym (mask_key_short b y m)
  | long l m front back ↦
      let same_shown : shown a ≡ shown b = shown-eq a b front back in
      mask_key_long a l ∙ same_shown ∙ sym (mask_key_long b m)
]

-- Seven lines that are empty but for white space.
abbrev pub Blank : Text → Type 0
Blank l = trim_space l ≡ []

-- The dialogue on a configuration that is there keeps its seven values when each answer is empty; but
-- the IP source, the schedule, the time limit and the server block are lost. The region, the TTL and
-- the cache path are set in it.
pub prompt_config-Blank :
    (parse_int : Text → Option ℤ) (cache_path : Result Text Text) (c : Config)
    (l1 l2 l3 l4 l5 l6 l7 : Text) (lines : List Text) (rest : Text)
    → All Blank (l1 ∷ l2 ∷ l3 ∷ l4 ∷ l5 ∷ l6 ∷ l7 ∷ [])
    → is_empty c.aws_region ≡ false
    → is_zero c.ttl ≡ false
    → is_empty c.ip_cache_file ≡ false
    → prompt_config parse_int cache_path
        (some c)
        (record { lines = l1 ∷ l2 ∷ l3 ∷ l4 ∷ l5 ∷ l6 ∷ l7 ∷ lines; rest = rest })
      ≡ ok (
        record c { ip_source = []; update_interval = []; update_timeout = []; server = none },
        record { lines = lines; rest = rest },
      )
unfolding prompt_config
prompt_config-Blank parse_int cache_path c l1 l2 l3 l4 l5 l6 l7 lines rest
      (b1, (b2, (b3, (b4, (b5, (b6, (b7, _))))))) region ttl cache =
    ground arith
