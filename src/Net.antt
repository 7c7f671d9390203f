-- ===== src/Net.antt =====
-- The part of Go's package net that dddns uses: addresses, their classes, and networks. An address
-- is kept in the form in which net compares it: four bytes where `To4` is not nil, and otherwise
-- sixteen, the first two by themselves.
use Prim.Native.Nat.{bit_and}
use dddns.Prelude.{ℕ, Bool, true, false, not, ◌&&◌, ◌||◌, List, [], ◌∷◌, Option}
use dddns.Prelude.Tests.{◌==◌}

pub data Ip : Type 0 where
  v4 : (a b c d : ℕ) → Ip
  v6 : (first second : ℕ) → List ℕ → Ip

all_zero : List ℕ → Bool
all_zero [] = true
all_zero (x ∷ xs) = (x == 0) && all_zero xs

-- The bytes of `::1` behind the first two.
ends_in_one : List ℕ → Bool
ends_in_one [] = false
ends_in_one (x ∷ []) = x == 1
ends_in_one (x ∷ y ∷ ys) = (x == 0) && ends_in_one (y ∷ ys)

-- `ip.To4() != nil`.
unfoldable pub is_ipv4 : Ip → Bool
is_ipv4 (v4 a b c d) = true
is_ipv4 (v6 x y rest) = false

is_broadcast : Ip → Bool
is_broadcast (v4 a b c d) = (a == 255) && ((b == 255) && ((c == 255) && (d == 255)))
is_broadcast (v6 x y rest) = false

is_unspecified : Ip → Bool
unfolding all_zero
is_unspecified (v4 a b c d) = (a == 0) && ((b == 0) && ((c == 0) && (d == 0)))
is_unspecified (v6 x y rest) = (x == 0) && ((y == 0) && all_zero rest)

is_loopback : Ip → Bool
unfolding ends_in_one
is_loopback (v4 a b c d) = a == 127
is_loopback (v6 x y rest) = (x == 0) && ((y == 0) && ends_in_one rest)

is_multicast : Ip → Bool
is_multicast (v4 a b c d) = bit_and a 0xf0 == 0xe0
is_multicast (v6 x y rest) = x == 0xff

is_link_local_unicast : Ip → Bool
is_link_local_unicast (v4 a b c d) = (a == 169) && (b == 254)
is_link_local_unicast (v6 x y rest) = (x == 0xfe) && (bit_and y 0xc0 == 0x80)

unfoldable pub is_global_unicast : Ip → Bool
unfolding is_broadcast is_unspecified is_loopback is_multicast is_link_local_unicast
is_global_unicast ip =
    not (is_broadcast ip)
    && (not (is_unspecified ip)
        && (not (is_loopback ip) && (not (is_multicast ip) && not (is_link_local_unicast ip))))

unfoldable pub is_private : Ip → Bool
is_private (v4 a b c d) =
    (a == 10) || (((a == 172) && (bit_and b 0xf0 == 16)) || ((a == 192) && (b == 168)))
is_private (v6 x y rest) = bit_and x 0xfe == 0xfc

-- A `net.IPNet`: the network's number and its mask, byte by byte.
pub record Network : Type 0 where
  pub number : List ℕ
  pub mask : List ℕ

bytes_of : Ip → List ℕ
bytes_of (v4 a b c d) = a ∷ b ∷ c ∷ d ∷ []
bytes_of (v6 x y rest) = x ∷ y ∷ rest

-- Lists of different lengths do not match, as in `Contains`.
matches : List ℕ → List ℕ → List ℕ → Bool
matches [] [] [] = true
matches (n ∷ ns) (m ∷ ms) (x ∷ xs) = (bit_and n m == bit_and x m) && matches ns ms xs
matches _ _ _ = false

-- `network.Contains(ip)`.
unfoldable pub contains : Network → Ip → Bool
unfolding bytes_of matches
contains network ip = matches network.number network.mask (bytes_of ip)

-- A value of type `net.Addr`; the address in it may be nil.
pub data Addr : Type 0 where
  ip_net ip_addr : Option Ip → Addr
  other_addr : Addr
