-- ===== src/WanIp.antt =====
-- internal/wanip/wanip.go: the public IPv4 address of the WAN interface. What the operating system
-- reports is a record of parameters.
pub mod Public
pub mod Interfaces
use dddns.Prelude.{
  ℕ, ◌≡◌, refl, Bool, true, false, not, ◌&&◌, List, [], ◌∷◌, ◌++◌, reverse, Option, none, some,
}
use dddns.Prelude.Tests.{◌==◌, if◌then◌else◌}
use dddns.Prelude.Text.{Text, codes, text_eq, is_empty, is_space, split}
use dddns.Prelude.Result.{Result, ok, err}
use dddns.Net.{
  Ip, is_ipv4, is_global_unicast, is_private, Network, contains, Addr, ip_net, ip_addr, other_addr,
}

-- 100.64.0.0/10.
abbrev pub cgnat : Network
cgnat = record { number = 100 ∷ 64 ∷ 0 ∷ 0 ∷ []; mask = 255 ∷ 192 ∷ 0 ∷ 0 ∷ [] }

unfoldable pub addr_to_ip : Addr → Option Ip
addr_to_ip (ip_net ip) = ip
addr_to_ip (ip_addr ip) = ip
addr_to_ip other_addr = none

unfoldable pub is_public_ipv4 : Option Ip → Bool
is_public_ipv4 none = false
is_public_ipv4 (some ip) =
    if not (is_ipv4 ip)
    then false
    else if not (is_global_unicast ip)
    then false
    else if is_private ip
    then false
    else if contains cgnat ip
    then false
    else true

pub data WanError : Type 0 where
  -- An error of the operating system.
  os_error : Text → WanError
  empty_route_table no_default_route : WanError
  no_public_interface : WanError
  auto_detect : (fallback route : WanError) → WanError
  interface_error : (name : Text) → WanError → WanError
  no_public_address : (name : Text) → WanError

-- The three sources that the tests of wanip replace. The route table is `none` if the file cannot be
-- opened.
pub record Os : Type 0 where
  pub route_table : Result Text Text
  pub interface_addrs : Text → Result WanError (List Addr)
  pub list_interface_names : Result WanError (List Text)

-- One line as `bufio.ScanLines` gives it, without a carriage return at its end.
drop_return : Text → Text
drop_return [] = []
drop_return (c ∷ []) = if c == 13 then [] else c ∷ []
drop_return (c ∷ d ∷ s) = c ∷ drop_return (d ∷ s)

-- The text after the last line break is a line only if it is not empty.
line_tokens : List Text → List Text
line_tokens [] = []
line_tokens (l ∷ []) = if is_empty l then [] else drop_return l ∷ []
line_tokens (l ∷ m ∷ ls) = drop_return l ∷ line_tokens (m ∷ ls)

unfoldable pub scan_lines : Text → List Text
unfolding split line_tokens drop_return
scan_lines s = line_tokens (split 10 s)

unfoldable pub flush : Text → List Text → List Text
flush cur rest = if is_empty cur then rest else cur ∷ rest

unfoldable pub fields_from : Text → Text → List Text
fields_from cur [] = flush cur []
fields_from cur (c ∷ s) =
    let closed = flush cur (fields_from [] s) in
    let longer = fields_from (cur ++ c ∷ []) s in if is_space c then closed else longer

-- `strings.Fields`, on ASCII text.
unfoldable pub fields : Text → List Text
unfolding fields_from flush is_space
fields s = fields_from [] s

-- The interface of a row of the route table, if its destination is 0.0.0.0.
unfoldable pub default_row : List Text → Option Text
default_row (iface ∷ destination ∷ gateway ∷ _) =
    if text_eq destination (codes "00000000") then some iface else none
default_row _ = none

unfoldable pub find_default : List Text → Result WanError Text
find_default [] = err no_default_route
find_default (line ∷ lines) = elim (default_row (fields line)) [
  | some iface ↦ ok iface
  | none ↦ find_default lines
]

rows : List Text → Result WanError Text
rows [] = err empty_route_table
rows (header ∷ lines) = find_default lines

unfoldable pub detect_default_route_interface : Os → Result WanError Text
unfolding rows
detect_default_route_interface os = elim os.route_table [
  | err e ↦ err (os_error e)
  | ok table ↦ rows (scan_lines table)
]

-- The loops over the addresses of one interface.
unfoldable pub first_public : List Addr → Option Ip
first_public [] = none
first_public (a ∷ addrs) =
    let rest = first_public addrs in if is_public_ipv4 (addr_to_ip a) then addr_to_ip a else rest

unfoldable pub scan_interfaces : (Text → Result WanError (List Addr)) → List Text → Option Ip
scan_interfaces addrs [] = none
scan_interfaces addrs (name ∷ names) = elim (addrs name) [
  | err e ↦ scan_interfaces addrs names
  | ok found ↦ elim (first_public found) [ some ip ↦ some ip | none ↦ scan_interfaces addrs names ]
]

unfoldable pub first_public_interface_ip : Os → Result WanError Ip
first_public_interface_ip os = elim os.list_interface_names [
  | err e ↦ err e
  | ok names ↦ elim (scan_interfaces os.interface_addrs names) [
    | some ip ↦ ok ip
    | none ↦ err no_public_interface
  ]
]

-- The part of `FromInterface` behind the choice of the interface.
unfoldable pub from_named : Os → Text → Result WanError Ip
from_named os name = elim (os.interface_addrs name) [
  | err e ↦ err (interface_error name e)
  | ok addrs ↦ elim (first_public addrs) [ some ip ↦ ok ip | none ↦ err (no_public_address name) ]
]

unfoldable pub from_interface : Os → Text → Result WanError Ip
from_interface os [] = elim (detect_default_route_interface os) [
  | ok detected ↦ from_named os detected
  | err route ↦ elim (first_public_interface_ip os) [
    | ok ip ↦ ok ip
    | err e ↦ err (auto_detect e route)
  ]
]
from_interface os (c ∷ s) = from_named os (c ∷ s)
