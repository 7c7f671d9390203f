-- ===== src/Cmd/Verify/Summary.antt =====
-- cmd/verify.go: what the last lines of the report tell.
use dddns.Prelude.{◌≡◌, ◌≢◌, inl, inr, List, [], ◌∷◌, arith}
use dddns.Prelude.Tests.{Bool-cases}
use dddns.Prelude.Result.{Result, ok, err}
use dddns.Prelude.Text.{Text, text_eq, text_eq_iff, is_empty, eq-nil_of_empty, ne-nil_of_not_empty}
use dddns.Net.{Ip}
use dddns.Verify.{Report, run, fields_of}
use dddns.Cmd.Verify.{summary, up_to_date, no_record, mismatch}
use dddns.Prelude.Text.{codes}

-- What the last lines tell, from what Route53 has answered.
pub data Told (public_ip : Text) : Result Text Text → List Text → Type 0 where
  current : {ip : Text} → ip ≢ [] → ip ≡ public_ip → Told public_ip (ok ip) (up_to_date ∷ [])
  stale :
      {ip : Text} (advice : Text)
      → ip ≢ []
      → ip ≢ public_ip
      → Told public_ip (ok ip) (mismatch ip public_ip ∷ advice ∷ [])
  absent : {ip : Text} → ip ≡ [] → Told public_ip (ok ip) (no_record ∷ [])
  failed : (e : Text) → Told public_ip (err e) (no_record ∷ [])

module _ (show : Ip → Text) (query : Text → Result Text (List Ip)) where
  -- The summary of a report says that the record is up to date exactly if Route53 has answered with
  -- the public address; that it is missing, if Route53 has failed or has no address; and else names
  -- the two addresses that differ.
  pub summary-Told :
      (public_ip : Text) (route53 : Result Text Text) (stdlib : Result Text (List Ip)) (r : Report)
      → run show query (ok public_ip) route53 stdlib ≡ ok r
      → Told public_ip route53 (summary r)
  unfolding run summary fields_of
  summary-Told public_ip (err e) stdlib r h =
      let is : summary r ≡ no_record ∷ [] = ground arith in rw is (failed e)
  summary-Told public_ip (ok ip) stdlib r h = elim (Bool-cases (is_empty ip)) [
    | inl nothing ↦
        let is : summary r ≡ no_record ∷ [] = ground arith in
        rw is (absent (eq-nil_of_empty ip nothing))
    | inr given ↦ elim (Bool-cases (text_eq ip public_ip)) [
      | inl same ↦
          let is : summary r ≡ up_to_date ∷ [] = ground arith in
          rw is (current (ne-nil_of_not_empty ip given) ((text_eq_iff _ _).0 same))
      | inr other ↦
          let is : summary r
              ≡ mismatch ip public_ip ∷ codes "  Run 'dddns update' to fix this" ∷ [] =
            ground arith in
          rw is
            (stale _ (ne-nil_of_not_empty ip given) (λ e. ground (arith, text_eq_iff ip public_ip)))
    ]
  ]
