-- ===== src/Updater/Cache.antt =====
-- The cache file of internal/updater/updater.go: what is written is read back.
use dddns.Prelude.{◌≡◌, refl, ◌∙◌, false, [], ◌∷◌, ◌++◌, reverse, Option, some, arith}
use dddns.Prelude.Lists.{All, All-append}
use dddns.Prelude.Text.{
  Text, codes, Lacks, cut_prefix, split-append, is_space, trim_left, trim_space,
}
use dddns.Net.{Ip}
use dddns.Updater.{cache_content, read_cached_ip, find_last_known, cached_in}
use mathlib.Core.List.{reverse-cons, reverse-reverse}

-- No byte is white space, as in an address.
abbrev pub IsSolid : Text → Type 0
IsSolid s = All (λ c. is_space c ≡ false) s

trim_left_solid : (s : Text) → IsSolid s → trim_left s ≡ s
unfolding trim_left
trim_left_solid [] h = refl
trim_left_solid (c ∷ s) (h, hs) = rw h

IsSolid-reverse : (s : Text) → IsSolid s → IsSolid (reverse s)
IsSolid-reverse [] h = tt
IsSolid-reverse (c ∷ s) (h, hs) =
    rw reverse-cons (All-append _ (reverse s) (c ∷ []) (IsSolid-reverse s hs) (h, tt))

trim_space_solid : (s : Text) → IsSolid s → trim_space s ≡ s
unfolding trim_space
trim_space_solid s h =
    rw (trim_left_solid s h, trim_left_solid (reverse s) (IsSolid-reverse s h)) (reverse-reverse s)

trim_space-blank : (s : Text) → IsSolid s → trim_space (32 ∷ s) ≡ s
unfolding trim_space is_space
trim_space-blank s h =
    rw (trim_left_solid s h, trim_left_solid (reverse s) (IsSolid-reverse s h)) (reverse-reverse s)

solid-Lacks : (s : Text) → IsSolid s → Lacks 10 s
unfolding is_space
solid-Lacks [] h = tt
solid-Lacks (c ∷ s) (h, hs) = (ground arith, solid-Lacks s hs)

-- A file whose first line has the key holds the address of that line.
cached_in-line :
    (parse_ip : Text → Option Ip) (line value rest : Text)
    → Lacks 10 line
    → cut_prefix (codes "last_known_ip:") line ≡ some value
    → cached_in parse_ip (line ++ 10 ∷ rest) ≡ trim_space value
unfolding cached_in find_last_known
cached_in-line parse_ip line value rest h e =
    rw (split-append 10 line rest h, cached_in, find_last_known) (rw e)

-- The address that is written to the cache is the one that the next run reads, if it holds no white
-- space; whatever the time stamp is.
pub read_cached_ip-cache_content :
    (parse_ip : Text → Option Ip) (ip time : Text)
    → IsSolid ip
    → read_cached_ip parse_ip (some (cache_content ip time)) ≡ ip
unfolding read_cached_ip cache_content cut_prefix
read_cached_ip-cache_content parse_ip ip time h =
    let line = codes "last_known_ip:" ++ 32 ∷ ip in
    let rest = codes "last_updated: " ++ (time ++ 10 ∷ []) in
    let lacks =
      All-append _ (codes "last_known_ip:") (32 ∷ ip) (omega arith)
        (omega arith, solid-Lacks ip h) in
    cached_in-line parse_ip line (32 ∷ ip) rest lacks refl ∙ trim_space-blank ip h
