-- ===== src/Dns/Route53.antt =====
-- internal/dns/route53.go: the two requests to Route53. The transport, the XML encoder and decoders,
-- and `url.Values.Encode` are parameters.
pub mod Current
use dddns.Prelude.{
  ℕ, ◌≡◌, refl, Bool, true, false, not, ◌&&◌, ◌||◌, List, [], ◌∷◌, ◌++◌, Option, none, some,
}
use dddns.Prelude.Tests.{ltb, leb, ◌==◌, if◌then◌else◌}
use dddns.Prelude.Lists.{length, take}
use dddns.Prelude.Int.{ℤ}
use dddns.Prelude.Result.{Result, ok, err, wrap}
use dddns.Prelude.Text.{Text, codes, text_eq, is_empty, has_suffix, trim_space}
use dddns.Config.{Config}
use dddns.Dns.SigV4.{Credentials}

pub record Route53Client : Type 0 where
  pub credentials : Credentials
  pub hosted_zone_id : Text
  pub hostname : Text
  pub ttl : ℤ

pub data DnsError : Type 0 where
  credentials_required : DnsError
  transport_failed read_failed : Text → DnsError
  aws_error : (status : ℕ) → (code message : Text) → DnsError
  http_error : (status : ℕ) → (snippet : Text) → DnsError
  unparsable_list : DnsError
  no_record : Text → DnsError
  list_failed update_failed : DnsError → DnsError

-- `NewRoute53Client`; the region is ignored.
unfoldable pub new_route53_client :
    (region access_key secret_key session_token hosted_zone_id hostname : Text) (ttl : ℤ)
    → Result DnsError Route53Client
new_route53_client region access_key secret_key session_token hosted_zone_id hostname ttl =
    if is_empty access_key || is_empty secret_key
    then err credentials_required
    else ok (record {
      credentials = record {
        access_key = access_key;
        secret_key = secret_key;
        session_token = session_token;
      };
      hosted_zone_id = hosted_zone_id;
      hostname = hostname;
      ttl = ttl;
    })

unfoldable pub new_from_config : Config → Result DnsError Route53Client
new_from_config c =
    new_route53_client c.aws_region c.aws_access_key c.aws_secret_key [] c.hosted_zone_id c.hostname
      c.ttl

unfoldable pub fqdn : Route53Client → Text
fqdn r = if has_suffix (codes ".") r.hostname then r.hostname else r.hostname ++ codes "."

pub record ResourceRecordSet : Type 0 where
  pub name : Text
  pub type : Text
  pub ttl : ℤ
  -- The values; `none` where the element is absent, as for an alias.
  pub resource_records : Option (List Text)

pub record Change : Type 0 where
  pub action : Text
  pub record_set : ResourceRecordSet

pub record HttpRequest : Type 0 where
  pub method : Text
  pub path : Text
  pub query : Text
  pub body : Text

pub record HttpResponse : Type 0 where
  pub status : ℕ
  pub body : Result Text Text

-- The code and the message of an error body.
abbrev pub ErrorParts : Type 0
ErrorParts = Text × Text

pub record Codec : Type 0 where
  pub encode_query : List (Text × Text) → Text
  pub marshal_change : Change → Text
  pub unmarshal_list : Text → Option (List ResourceRecordSet)
  pub wrapped_error : Text → Option ErrorParts
  pub flat_error : Text → Option ErrorParts

-- The raw body, cut to 256 bytes.
snippet_of : Text → Text
snippet_of body =
    let s = trim_space body in if ltb 256 (length s) then take 256 s ++ codes "..." else s

module _ (x : Codec) where
  flat_or_raw : ℕ → Text → DnsError
  flat_or_raw status body = elim (x.flat_error body) [
    | none ↦ http_error status (snippet_of body)
    | some (code, message) ↦
        if not (is_empty code)
        then aws_error status code message
        else http_error status (snippet_of body)
  ]

  unfoldable pub parse_aws_error : ℕ → Text → DnsError
  unfolding flat_or_raw snippet_of
  parse_aws_error status body = elim (x.wrapped_error body) [
    | none ↦ flat_or_raw status body
    | some (code, message) ↦
        if not (is_empty code) then aws_error status code message else flat_or_raw status body
  ]

  -- What `do` makes of the answer; the body is read up to 1 MiB.
  check_response : HttpResponse → Result DnsError Text
  check_response resp = elim resp.body [
    | err e ↦ err (read_failed e)
    | ok full ↦
        let body = take 1_048_576 full in
        if leb 400 resp.status then err (parse_aws_error resp.status body) else ok body
  ]

  module _ (send : HttpRequest → Result Text HttpResponse) where
    -- `do`: the signed request, and its answer.
    unfoldable pub perform : HttpRequest → Result DnsError Text
    unfolding check_response
    perform req = elim (send req) [
      | err e ↦ err (transport_failed e)
      | ok resp ↦ check_response resp
    ]

    unfoldable pub list_request : Route53Client → HttpRequest
    list_request r = record {
      method = codes "GET";
      path = codes "/2013-04-01/hostedzone/" ++ (r.hosted_zone_id ++ codes "/rrset");
      query =
          x.encode_query (
            (codes "maxitems", codes "1")
            ∷ (codes "name", fqdn r)
            ∷ (codes "type", codes "A")
            ∷ []);
      body = [];
    }

    -- The loop over the record sets of the answer.
    unfoldable pub find_value : Text → List ResourceRecordSet → Option Text
    find_value name [] = none
    find_value name (rs ∷ sets) =
        let rest = find_value name sets in
        if text_eq rs.name name && text_eq rs.type (codes "A")
        then elim rs.resource_records [
          | none ↦ rest
          | some values ↦ elim values [ [] ↦ rest | v ∷ more ↦ some v ]
        ]
        else rest

    read_list : Route53Client → Text → Result DnsError Text
    read_list r body = elim (x.unmarshal_list body) [
      | none ↦ err unparsable_list
      | some sets ↦ elim (find_value (fqdn r) sets) [
        | none ↦ err (no_record r.hostname)
        | some v ↦ ok v
      ]
    ]

    unfoldable pub get_current_ip : Route53Client → Result DnsError Text
    unfolding read_list list_request
    get_current_ip r = elim (perform (list_request r)) [
      | err e ↦ err (list_failed e)
      | ok body ↦ read_list r body
    ]

    -- The change that `UpdateIP` asks for.
    unfoldable pub upsert_change : Route53Client → Text → Change
    upsert_change r new_ip = record {
      action = codes "UPSERT";
      record_set = record {
        name = fqdn r;
        type = codes "A";
        ttl = r.ttl;
        resource_records = some (new_ip ∷ []);
      };
    }

    -- `none` is the nil error.
    unfoldable pub update_ip : Route53Client → Text → Option DnsError
    update_ip r new_ip =
        elim (perform (record {
          method = codes "POST";
          path = codes "/2013-04-01/hostedzone/" ++ (r.hosted_zone_id ++ codes "/rrset/");
          query = [];
          body = x.marshal_change (upsert_change r new_ip);
        })) [ err e ↦ some (update_failed e) | ok _ ↦ none ]
