-- ===== src/Tests/Network.antt =====
-- Addresses, interfaces, and the answers of Route53.
use dddns.Prelude.{◌≡◌, ◌↔◌, refl, List, [], ◌∷◌, Option, none, some, arith, true, false}
use dddns.Prelude.Int.{pos}
use dddns.Prelude.Result.{Result, ok, err}
use dddns.Prelude.Text.{Text, codes, trim_space, text_eq}
use dddns.Net.{Ip, v4, ip_net, contains, is_ipv4, is_global_unicast, is_private}
use dddns.WanIp.{addr_to_ip, Os, cgnat, is_public_ipv4, from_interface, from_named, first_public}
use dddns.WanIp.Public.{IsPublic, is_public_ipv4_iff}
use dddns.WanIp.Interfaces.{Chosen, from_interface_sound}
use dddns.MyIp.{Response, validate_public_ip, get_public_ip}
use dddns.MyIp.Accepted.{validate_public_ip-is_public_ipv4}
use dddns.Dns.SigV4.{aws_uri_encode}
use dddns.Dns.SigV4.Encode.{percent_decode, percent_decode-aws_uri_encode}
use dddns.Dns.Route53.{
  Route53Client, ResourceRecordSet, Codec, HttpRequest, HttpResponse, fqdn, perform, list_request,
  get_current_ip, find_value,
}
use dddns.Dns.Route53.Current.{HasValue, get_current_ip-HasValue}
use dddns.Prelude.Text.{has_suffix}

is_public_ipv4_iff_example : (is_public_ipv4 (some (v4 203 0 113 7)) ≡ true) ↔ IsPublic 203 0 113 7
is_public_ipv4_iff_example =
    is_public_ipv4_iff 203 0 113 7 (omega arith) (omega arith) (omega arith) (omega arith)

abbrev host : Os
host = record {
  route_table = err [];
  interface_addrs = λ _. ok (ip_net (some (v4 10 0 0 1)) ∷ ip_net (some (v4 203 0 113 7)) ∷ []);
  list_interface_names = ok [];
}

abbrev eth4 : Text
eth4 = codes "eth4"

skips_private : from_interface host eth4 ≡ ok (v4 203 0 113 7)
unfolding from_interface from_named first_public is_public_ipv4 is_ipv4 is_global_unicast is_private
    contains addr_to_ip
skips_private = refl

from_interface_sound_example :
    Chosen host eth4 (v4 203 0 113 7) × (is_public_ipv4 (some (v4 203 0 113 7)) ≡ true)
from_interface_sound_example = from_interface_sound host eth4 (v4 203 0 113 7) skips_private

-- A parser that knows one address.
abbrev one_address : Text → Option Ip
one_address _ = some (v4 100 64 0 1)

validate_public_ip-is_public_ipv4_example : (is_public_ipv4 (some (v4 100 64 0 1)) ≡ true) ↔ (
    (validate_public_ip one_address (codes "100.64.0.1") ≡ none)
    × (contains cgnat (v4 100 64 0 1) ≡ false))
validate_public_ip-is_public_ipv4_example =
    validate_public_ip-is_public_ipv4 one_address (codes "100.64.0.1") (v4 100 64 0 1) refl

-- An address of the carrier's network passes the check of the report.
nat_is_reported : validate_public_ip one_address (codes "100.64.0.1") ≡ none
unfolding validate_public_ip is_ipv4 is_global_unicast is_private
nat_is_reported = refl

abbrev reported : Result Text Response
reported = ok (record { status = 200; body = ok (codes "100.64.0.1\n") })

reported_ip : get_public_ip one_address reported ≡ ok (codes "100.64.0.1")
unfolding get_public_ip validate_public_ip is_ipv4 is_global_unicast is_private trim_space
reported_ip = refl

percent_decode-aws_uri_encode_example :
    percent_decode (aws_uri_encode (codes "a b/c%") true) ≡ codes "a b/c%"
percent_decode-aws_uri_encode_example =
    percent_decode-aws_uri_encode (codes "a b/c%") true (omega arith)

escapes : aws_uri_encode (codes "a b/c%") true ≡ codes "a%20b%2Fc%25"
unfolding aws_uri_encode
escapes = refl

-- An escape that is encoded once more is not the same escape.
encoded_twice : aws_uri_encode (codes "%2A.example.com") true ≡ codes "%252A.example.com"
unfolding aws_uri_encode
encoded_twice = refl

abbrev client : Route53Client
client = record {
  credentials = record { access_key = codes "AK"; secret_key = codes "sk"; session_token = [] };
  hosted_zone_id = codes "Z1";
  hostname = codes "home.example.com";
  ttl = pos 300;
}

abbrev home_record : ResourceRecordSet
home_record = record {
  name = codes "home.example.com.";
  type = codes "A";
  ttl = pos 300;
  resource_records = some (codes "203.0.113.7" ∷ []);
}

abbrev codec : Codec
codec = record {
  encode_query = λ _. codes "q";
  marshal_change = λ _. codes "x";
  unmarshal_list = λ _. some (home_record ∷ []);
  wrapped_error = λ _. none;
  flat_error = λ _. none;
}

abbrev answering : HttpRequest → Result Text HttpResponse
answering _ = ok (record { status = 200; body = ok (codes "<xml/>") })

current : get_current_ip codec answering client ≡ ok (codes "203.0.113.7")
unfolding get_current_ip perform find_value fqdn has_suffix text_eq
current = refl

get_current_ip-HasValue_example :
    (body : Text) × (sets : List ResourceRecordSet) × (perform codec answering
        (list_request codec answering client)
      ≡ ok body)
    × (some (home_record ∷ []) ≡ some sets)
    × HasValue (fqdn client) (codes "203.0.113.7") sets
get_current_ip-HasValue_example =
    get_current_ip-HasValue codec answering client (codes "203.0.113.7") current
