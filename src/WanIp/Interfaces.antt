-- ===== src/WanIp/Interfaces.antt =====
-- Which address `FromInterface` of internal/wanip/wanip.go returns.
use dddns.Prelude.{◌≡◌, inl, inr, refl, true, false, List, [], ◌∷◌, Option, none, some, arith}
use dddns.Prelude.Tests.{Bool-cases}
use dddns.Prelude.Lists.{All}
use dddns.Net.{Ip, Addr}
use dddns.WanIp.{addr_to_ip, is_public_ipv4, first_public}
use dddns.WanIp.{Os, from_interface, from_named, scan_interfaces}
use dddns.Prelude.Result.{Result}
use dddns.Prelude.Text.{Text}
use dddns.WanIp.{WanError, first_public_interface_ip}
use dddns.Prelude.Result.{ok}
use dddns.Prelude.Tests.{Option-cases}
use dddns.Prelude.Result.{err}
use dddns.Prelude.{◌≢◌}
use dddns.WanIp.{detect_default_route_interface}
use dddns.Prelude.Result.{Result-cases}

-- `ip` is the public address that comes first in a list: all before it are refused.
pub data IsFirst (ip : Ip) : List Addr → Type 0 where
  here :
      {a : Addr} {rest : List Addr}
      → addr_to_ip a ≡ some ip
      → is_public_ipv4 (some ip) ≡ true
      → IsFirst ip (a ∷ rest)
  later :
      {a : Addr} {rest : List Addr}
      → is_public_ipv4 (addr_to_ip a) ≡ false
      → IsFirst ip rest
      → IsFirst ip (a ∷ rest)

abbrev pub IsRefused : Addr → Type 0
IsRefused a = is_public_ipv4 (addr_to_ip a) ≡ false

some_of_public :
    (o : Option Ip)
    → is_public_ipv4 o ≡ true
    → (ip : Ip) × (o ≡ some ip) × (is_public_ipv4 (some ip) ≡ true)
unfolding is_public_ipv4
some_of_public none h = cc
some_of_public (some ip) h = (ip, refl, h)

first_public_sound : (addrs : List Addr) (ip : Ip) → first_public addrs ≡ some ip → IsFirst ip addrs
unfolding first_public
first_public_sound [] ip h = cc
first_public_sound (a ∷ addrs) ip h = elim (Bool-cases (is_public_ipv4 (addr_to_ip a))) [
  | inl good ↦
      let (found, e, public) = some_of_public (addr_to_ip a) good in
      let same : addr_to_ip a ≡ some ip = ground arith in here same (rw (← same) good)
  | inr bad ↦ later bad (first_public_sound addrs ip (ground arith))
]

first_public-none : (addrs : List Addr) → first_public addrs ≡ none → All IsRefused addrs
unfolding first_public
first_public-none [] h = tt
first_public-none (a ∷ addrs) h = elim (Bool-cases (is_public_ipv4 (addr_to_ip a))) [
  | inl good ↦ let (found, e, _) = some_of_public (addr_to_ip a) good in cc (rw good at h)
  | inr bad ↦ (bad, first_public-none addrs (ground arith))
]

pub IsFirst-public :
    {ip : Ip} {addrs : List Addr} → IsFirst ip addrs → is_public_ipv4 (some ip) ≡ true
IsFirst-public (here _ public) = public
IsFirst-public (later _ rest) = IsFirst-public rest

-- `ip` is the first public address of the first interface of a list that has one and whose
-- addresses can be read.
pub data Scans (addrs : Text → Result WanError (List Addr)) (ip : Ip) : List Text → Type 0 where
  found :
      {name : Text} {names : List Text} {l : List Addr}
      → addrs name ≡ ok l
      → IsFirst ip l
      → Scans addrs ip (name ∷ names)
  unreadable :
      {name : Text} {names : List Text} {e : WanError}
      → addrs name ≡ err e
      → Scans addrs ip names
      → Scans addrs ip (name ∷ names)
  without :
      {name : Text} {names : List Text} {l : List Addr}
      → addrs name ≡ ok l
      → All IsRefused l
      → Scans addrs ip names
      → Scans addrs ip (name ∷ names)

Scans-public :
    {addrs : Text → Result WanError (List Addr)} {ip : Ip} {names : List Text}
    → Scans addrs ip names
    → is_public_ipv4 (some ip) ≡ true
Scans-public (found _ first) = IsFirst-public first
Scans-public (unreadable _ rest) = Scans-public rest
Scans-public (without _ _ rest) = Scans-public rest

scan_interfaces_sound :
    (addrs : Text → Result WanError (List Addr)) (names : List Text) (ip : Ip)
    → scan_interfaces addrs names ≡ some ip
    → Scans addrs ip names
unfolding scan_interfaces
scan_interfaces_sound addrs [] ip h = cc
scan_interfaces_sound addrs (name ∷ names) ip h = elim (Result-cases (addrs name)) [
  | inr (e, bad) ↦
      unreadable bad (scan_interfaces_sound addrs names ip (rw (bad, scan_interfaces) at h))
  | inl (l, good) ↦ elim (Option-cases (first_public l)) [
    | inl nothing ↦
        without good (first_public-none l nothing)
          (scan_interfaces_sound addrs names ip (ground arith))
    | inr (ip', first) ↦
        let same : ip' ≡ ip = ground arith in
        found good (rw same at (first_public_sound l ip' first))
  ]
]

-- How the address was chosen: on the interface that was named, on that of the default route if none
-- was named, or by the scan of all interfaces if there is no default route either.
pub data Chosen (os : Os) (name : Text) (ip : Ip) : Type 0 where
  on_named :
      {l : List Addr}
      → name ≢ []
      → os.interface_addrs name ≡ ok l
      → IsFirst ip l
      → Chosen os name ip
  on_default :
      {iface : Text} {l : List Addr}
      → name ≡ []
      → detect_default_route_interface os ≡ ok iface
      → os.interface_addrs iface ≡ ok l
      → IsFirst ip l
      → Chosen os name ip
  by_scan :
      {e : WanError} {names : List Text}
      → name ≡ []
      → detect_default_route_interface os ≡ err e
      → os.list_interface_names ≡ ok names
      → Scans os.interface_addrs ip names
      → Chosen os name ip

from_named_sound :
    (os : Os) (name : Text) (ip : Ip)
    → from_named os name ≡ ok ip
    → (l : List Addr) × (os.interface_addrs name ≡ ok l) × IsFirst ip l
unfolding from_named
from_named_sound os name ip h = elim (Result-cases (os.interface_addrs name)) [
  | inr (e, bad) ↦ absurd (ground arith)
  | inl (l, good) ↦ elim (Option-cases (first_public l)) [
    | inl nothing ↦ absurd (ground arith)
    | inr (ip', first) ↦
        let same : ip' ≡ ip = ground arith in (l, good, rw same at (first_public_sound l ip' first))
  ]
]

-- `FromInterface` returns an address only if it is the first public IPv4 address of the interface
-- that the rules choose, and it is public.
pub from_interface_sound :
    (os : Os) (name : Text) (ip : Ip)
    → from_interface os name ≡ ok ip
    → Chosen os name ip × (is_public_ipv4 (some ip) ≡ true)
unfolding from_interface first_public_interface_ip
from_interface_sound os (c ∷ s) ip h =
    let (l, good, first) = from_named_sound os (c ∷ s) ip h in
    (on_named (cc) good first, IsFirst-public first)
from_interface_sound os [] ip h = elim (Result-cases (detect_default_route_interface os)) [
  | inl (iface, route) ↦
      let (l, good, first) = from_named_sound os iface ip (ground arith) in
      (on_default refl route good first, IsFirst-public first)
  | inr (e, route) ↦ elim (Result-cases os.list_interface_names) [
    | inr (e', bad) ↦ absurd (ground arith)
    | inl (names, good) ↦ elim (Option-cases (scan_interfaces os.interface_addrs names)) [
      | inl nothing ↦ absurd (ground arith)
      | inr (ip', scan) ↦
          let same : ip' ≡ ip = ground arith in
          let scans = rw same at (scan_interfaces_sound os.interface_addrs names ip' scan) in
          (by_scan refl route good scans, Scans-public scans)
    ]
  ]
]
