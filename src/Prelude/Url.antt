-- ===== src/Prelude/Url.antt =====
-- What the program uses of package net/url, and `net.JoinHostPort`: the query of a request, as it is
-- written and as it is read.
pub mod Escape
pub mod RoundTrip
use Prim.Native.Nat.{◌+◌, ◌-◌, ◌*◌, ◌/◌, ◌%◌}
use dddns.Prelude.{ℕ, Bool, true, false, not, ◌&&◌, ◌||◌, List, [], ◌∷◌, ◌++◌, Option, none, some}
use dddns.Prelude.Tests.{ltb, leb, ◌==◌, if◌then◌else◌}
use dddns.Prelude.Text.{Text, text_eq, is_empty, split, split_once}

-- The host stands in brackets if it holds a colon or a percent sign.
unfoldable pub join_host_port : Text → Text → Text
join_host_port host port = elim (split_once b':' host) [
  | some _ ↦ b'[' ∷ (host ++ b']' ∷ b':' ∷ port)
  | none ↦ elim (split_once b'%' host) [
    | some _ ↦ b'[' ∷ (host ++ b']' ∷ b':' ∷ port)
    | none ↦ host ++ b':' ∷ port
  ]
]

pub is_plain : ℕ → Bool
is_plain c =
    (leb b'A' c && leb c b'Z')
    || ((leb b'a' c && leb c b'z')
        || ((leb b'0' c && leb c b'9')
            || ((c == b'-') || ((c == b'_') || ((c == b'.') || (c == b'~'))))))

hex_upper : ℕ → ℕ
hex_upper n = if ltb n 10 then b'0' + n else b'A' + (n - 10)

unfoldable pub escape_byte : ℕ → Text
unfolding is_plain hex_upper
escape_byte c =
    if is_plain c
    then c ∷ []
    else if c == 32
    then b'+' ∷ []
    else b'%' ∷ hex_upper (c / 16) ∷ hex_upper (c % 16) ∷ []

-- `url.QueryEscape`.
unfoldable pub query_escape : Text → Text
query_escape [] = []
query_escape (c ∷ s) = escape_byte c ++ query_escape s

-- The value of a hexadecimal digit, if it is one.
unhex : ℕ → Option ℕ
unhex c =
    if leb b'0' c && leb c b'9'
    then some (c - b'0')
    else if leb b'a' c && leb c b'f'
    then some (c - b'a' + 10)
    else if leb b'A' c && leb c b'F'
    then some (c - b'A' + 10)
    else none

prepend : ℕ → Option Text → Option Text
prepend c none = none
prepend c (some s) = some (c ∷ s)

escaped : Option ℕ → Option ℕ → Option Text → Option Text
escaped (some h) (some l) rest = prepend (h * 16 + l) rest
escaped _ _ rest = none

-- `url.QueryUnescape`; `none` is an error.
unfoldable pub query_unescape : Text → Option Text
unfolding unhex prepend escaped
query_unescape [] = some []
query_unescape (a ∷ []) = if a == b'%' then none else some ((if a == b'+' then 32 else a) ∷ [])
query_unescape (a ∷ b ∷ []) =
    let rest = query_unescape (b ∷ []) in
    if a == b'%' then none else prepend (if a == b'+' then 32 else a) rest
query_unescape (a ∷ b ∷ c ∷ s) =
    let decoded = escaped (unhex b) (unhex c) (query_unescape s) in
    let rest = query_unescape (b ∷ c ∷ s) in
    if a == b'%' then decoded else prepend (if a == b'+' then 32 else a) rest

-- The value of a parameter in one segment, if the segment is about it.
segment_value : Text → Text × Text → Option Text
segment_value key (k, v) = elim (query_unescape k) [
  | none ↦ none
  | some name ↦ if text_eq name key then query_unescape v else none
]

key_and_value : Text → Text × Text
key_and_value seg = elim (split_once b'=' seg) [ none ↦ (seg, []) | some parts ↦ parts ]

value_in : Text → Text → Option Text
value_in key seg = elim (split_once b';' seg) [
  | some _ ↦ none
  | none ↦ if is_empty seg then none else segment_value key (key_and_value seg)
]

find_value : Text → List Text → Text
find_value key [] = []
find_value key (seg ∷ segs) = elim (value_in key seg) [ some v ↦ v | none ↦ find_value key segs ]

-- `u.Query().Get(key)` on the query of a URL: the first value, "" if there is none. A segment that
-- cannot be read is skipped.
unfoldable pub query_get : Text → Text → Text
unfolding find_value value_in segment_value key_and_value
query_get key raw = find_value key (split b'&' raw)

before_fragment : Text → Text
before_fragment url = elim (split_once b'#' url) [ none ↦ url | some (u, fragment) ↦ u ]

-- The query of a URL: what stands behind the first question mark and before the fragment.
unfoldable pub raw_query : Text → Text
unfolding before_fragment
raw_query url = elim (split_once b'?' (before_fragment url)) [ none ↦ [] | some (u, query) ↦ query ]
