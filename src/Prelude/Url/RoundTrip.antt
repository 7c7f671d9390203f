-- ===== src/Prelude/Url/RoundTrip.antt =====
-- A query that is written by escaping is read back.
use dddns.Prelude.{ℕ, ◌≡◌, ◌∙◌, refl, ap, false, [], ◌∷◌, ◌++◌, Option, none, some, arith}
use mathlib.Core.List.{append_assoc}
use dddns.Prelude.Tests.{if◌then◌else◌}
use dddns.Prelude.Lists.{All-append}
use dddns.Prelude.Text.{
  Text, codes, Lacks, split, split_once, split_once-append, split_once-eq_none, split-append,
  split-Lacks, text_eq,
}
use dddns.Prelude.Url.{
  is_plain, query_escape, prepend, query_unescape, segment_value, key_and_value, value_in,
  find_value, query_get, before_fragment, raw_query,
}
use dddns.Prelude.Url.Escape.{AllBytes, query_unescape-query_escape, query_escape-Lacks}

semicolon : is_plain b';' ≡ false
unfolding is_plain
semicolon = refl

ampersand : is_plain b'&' ≡ false
unfolding is_plain
ampersand = refl

number_sign : is_plain b'#' ≡ false
unfolding is_plain
number_sign = refl

key_and_value-append : (k v : Text) → Lacks b'=' k → key_and_value (k ++ b'=' ∷ v) ≡ (k, v)
unfolding key_and_value
key_and_value-append k v h = rw (split_once-append b'=' k v h, key_and_value)

-- The keys that the program writes need no escaping.
segment_value-escape :
    (k value wanted : Text)
    → query_unescape k ≡ some k
    → AllBytes value
    → segment_value wanted (k, query_escape value) ≡ (if text_eq k wanted then some value else none)
unfolding segment_value
segment_value-escape k value wanted itself bytes =
    rw (itself, segment_value) (rw (query_unescape-query_escape value bytes))

-- A segment `key=value` is about its key.
value_in-segment :
    (c : ℕ) (name value : Text)
    → Lacks b';' (c ∷ name)
    → Lacks b'=' (c ∷ name)
    → query_unescape (c ∷ name) ≡ some (c ∷ name)
    → AllBytes value
    → (wanted : Text)
    → value_in wanted ((c ∷ name) ++ b'=' ∷ query_escape value)
      ≡ (if text_eq (c ∷ name) wanted then some value else none)
unfolding value_in
value_in-segment c name value semi eq itself bytes wanted =
    let none_of = split_once-eq_none b';' ((c ∷ name) ++ b'=' ∷ query_escape value) (
      All-append _ (c ∷ name) (b'=' ∷ query_escape value) semi
        (omega arith, query_escape-Lacks b';' value bytes semicolon (omega arith) (omega arith))) in
    rw (none_of, value_in)
      (rw (key_and_value-append (c ∷ name) (query_escape value) eq)
        (segment_value-escape (c ∷ name) value wanted itself bytes))

abbrev or_nothing : Option Text → Text
or_nothing none = []
or_nothing (some v) = v

abbrev first_of : Option Text → Option Text → Text
first_of (some v) y = v
first_of none y = or_nothing y

find_value-two :
    (wanted a b : Text) (x y : Option Text)
    → value_in wanted a ≡ x
    → value_in wanted b ≡ y
    → find_value wanted (a ∷ b ∷ []) ≡ first_of x y
unfolding find_value
find_value-two wanted a b (some v) y h k = rw (h, find_value)
find_value-two wanted a b none (some v) h k = rw (h, find_value) (rw k)
find_value-two wanted a b none none h k = rw (h, find_value) (rw k)

raw_query_lem :
    (url front query : Text)
    → split_once b'#' url ≡ none
    → split_once b'?' url ≡ some (front, query)
    → raw_query url ≡ query
unfolding raw_query before_fragment
raw_query_lem url front query h k = ground arith

-- What the client of the program asks for, and what a server reads.
abbrev pub two_values : (hostname myip : Text) → Text
two_values hostname myip =
    codes "hostname=" ++ (query_escape hostname ++ (codes "&myip=" ++ query_escape myip))

module _ (hostname myip : Text) (bytes : AllBytes hostname) (bytes' : AllBytes myip) where
  lacks : Lacks b'&' (codes "hostname=" ++ query_escape hostname)
  lacks =
      All-append _ (codes "hostname=") (query_escape hostname) (omega arith)
        (query_escape-Lacks b'&' hostname bytes ampersand (omega arith) (omega arith))

  lacks' : Lacks b'&' (codes "myip=" ++ query_escape myip)
  lacks' =
      All-append _ (codes "myip=") (query_escape myip) (omega arith)
        (query_escape-Lacks b'&' myip bytes' ampersand (omega arith) (omega arith))

  segments :
      split b'&' (two_values hostname myip)
      ≡ (codes "hostname=" ++ query_escape hostname) ∷ (codes "myip=" ++ query_escape myip) ∷ []
  segments =
      split-append b'&' (codes "hostname=" ++ query_escape hostname)
        (codes "myip=" ++ query_escape myip) lacks
      ∙ ap (λ x. (codes "hostname=" ++ query_escape hostname) ∷ x)
          (split-Lacks b'&' (codes "myip=" ++ query_escape myip) lacks')

  -- The parameters of the query have the values that were written.
  pub query_get-two :
      (query_get (codes "hostname") (two_values hostname myip) ≡ hostname)
      × (query_get (codes "myip") (two_values hostname myip) ≡ myip)
  unfolding query_get query_unescape prepend text_eq
  query_get-two = (
    ap (find_value (codes "hostname")) segments
        ∙ find_value-two (codes "hostname") _ _ _ _
            (value_in-segment b'h' (codes "ostname") hostname (omega arith) (omega arith) refl bytes
              (codes "hostname"))
            (value_in-segment b'm' (codes "yip") myip (omega arith) (omega arith) refl bytes'
              (codes "hostname")),
    ap (find_value (codes "myip")) segments
        ∙ find_value-two (codes "myip") _ _ _ _
            (value_in-segment b'h' (codes "ostname") hostname (omega arith) (omega arith) refl bytes
              (codes "myip"))
            (value_in-segment b'm' (codes "yip") myip (omega arith) (omega arith) refl bytes'
              (codes "myip")),
  )

  -- The query of the URL at `base` that asks for the two values.
  pub raw_query-two :
      (base : Text)
      → Lacks b'#' base
      → Lacks b'?' base
      → raw_query (base ++ (codes "/nic/update?" ++ two_values hostname myip))
        ≡ two_values hostname myip
  raw_query-two base h k =
      let whole = base ++ (codes "/nic/update?" ++ two_values hostname myip) in
      let no_fragment : split_once b'#' whole ≡ none = split_once-eq_none b'#' whole (
        All-append _ base (codes "/nic/update?" ++ two_values hostname myip) h (
          All-append _ (codes "/nic/update?hostname=")
            (query_escape hostname ++ (codes "&myip=" ++ query_escape myip)) (omega arith)
            (All-append _ (query_escape hostname) (codes "&myip=" ++ query_escape myip)
              (query_escape-Lacks b'#' hostname bytes number_sign (omega arith) (omega arith))
              (All-append _ (codes "&myip=") (query_escape myip) (omega arith)
                (query_escape-Lacks b'#' myip bytes' number_sign (omega arith) (omega arith)))))) in
      let cut : split_once b'?' whole
          ≡ some (base ++ codes "/nic/update", two_values hostname myip) =
        rw append_assoc at (
          split_once-append b'?' (base ++ codes "/nic/update") (two_values hostname myip)
            (All-append _ base (codes "/nic/update") k (omega arith))) in
      raw_query_lem whole (base ++ codes "/nic/update") (two_values hostname myip) no_fragment cut
