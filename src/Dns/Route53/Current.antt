-- ===== src/Dns/Route53/Current.antt =====
-- Which record the lookup of internal/dns/route53.go reads.
use dddns.Prelude.{◌≡◌, ◌⊎◌, inl, inr, refl, List, [], ◌∷◌, Option, none, some, arith, ◌&&◌}
use dddns.Prelude.Tests.{Bool-cases, Option-cases}
use dddns.Prelude.Result.{Result, ok, Result-cases}
use dddns.Prelude.Text.{Text, codes, text_eq, text_eq_iff}
use dddns.Dns.Route53.{
  Route53Client, ResourceRecordSet, Codec, HttpRequest, HttpResponse, fqdn, perform, list_request,
  find_value, read_list, get_current_ip,
}

-- `v` is the first value of an A record with this very name in a list of record sets.
pub data HasValue (name v : Text) : List ResourceRecordSet → Type 0 where
  first :
      {rs : ResourceRecordSet} {sets : List ResourceRecordSet} {more : List Text}
      → rs.name ≡ name
      → rs.type ≡ codes "A"
      → rs.resource_records ≡ some (v ∷ more)
      → HasValue name v (rs ∷ sets)
  next :
      {rs : ResourceRecordSet} {sets : List ResourceRecordSet}
      → HasValue name v sets
      → HasValue name v (rs ∷ sets)

values_cases :
    (o : Option (List Text))
    → ((o ≡ none) ⊎ (o ≡ some [])) ⊎ ((v : Text) × (more : List Text) × (o ≡ some (v ∷ more)))
values_cases none = inl (inl refl)
values_cases (some []) = inl (inr refl)
values_cases (some (v ∷ more)) = inr (v, more, refl)

module _ (x : Codec) (send : HttpRequest → Result Text HttpResponse) where
  find_value_sound :
      (name v : Text) (sets : List ResourceRecordSet)
      → find_value x send name sets ≡ some v
      → HasValue name v sets
  unfolding find_value
  find_value_sound name v [] h = cc
  find_value_sound name v (rs ∷ sets) h =
      elim (Bool-cases (text_eq rs.name name && text_eq rs.type (codes "A"))) [
        | inr other ↦ next (find_value_sound name v sets (ground arith))
        | inl same ↦ elim (values_cases rs.resource_records) [
          | inl nothing ↦ next (find_value_sound name v sets (ground arith))
          | inr (v', more, e) ↦
              let eq : v' ≡ v = ground arith in
              first {more = more} (ground (arith, text_eq_iff rs.name name))
                (ground (arith, text_eq_iff rs.type (codes "A"))) (rw (← eq) e)
        ]
      ]

  -- The lookup answers with a value only if the answer of Route53 has an A record with exactly the
  -- configured name, fully qualified, and it is the first value of such a record; a record that the
  -- service's cursor gives in its place is not taken.
  pub get_current_ip-HasValue :
      (r : Route53Client) (v : Text)
      → get_current_ip x send r ≡ ok v
      → (body : Text) × (sets : List ResourceRecordSet) × (perform x send (list_request x send r)
          ≡ ok body)
        × (x.unmarshal_list body ≡ some sets)
        × HasValue (fqdn r) v sets
  unfolding get_current_ip read_list
  get_current_ip-HasValue r v h = elim (Result-cases (perform x send (list_request x send r))) [
    | inr (e, bad) ↦ absurd (ground arith)
    | inl (body, good) ↦ elim (Option-cases (x.unmarshal_list body)) [
      | inl junk ↦ absurd (ground arith)
      | inr (sets, parsed) ↦ elim (Option-cases (find_value x send (fqdn r) sets)) [
        | inl absent ↦ absurd (ground arith)
        | inr (v', found) ↦
            let eq : v' ≡ v = ground arith in
            (body, sets, good, parsed, find_value_sound (fqdn r) v sets (rw (← eq) found))
      ]
    ]
  ]
