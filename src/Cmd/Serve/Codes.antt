-- ===== src/Cmd/Serve/Codes.antt =====
-- What `serve test` of cmd/serve.go makes of the codes of internal/server/handler.go.
use dddns.Prelude.{◌∙◌, ap, not, ◌&&◌, Bool, ℕ, ◌≡◌, refl, true, [], ◌∷◌, ◌++◌, arith}
use dddns.Prelude.Result.{ok}
use dddns.Prelude.Text.{Text, codes, text_eq, is_space}
use mathlib.Core.List.{append_assoc}
use dddns.WanIp.{fields}
use dddns.Updater.Cache.{IsSolid}
use dddns.Server.Handler.{Reply, write_dyndns}
use dddns.Cmd.Serve.{HttpAnswer, judge, judge_code}
use dddns.Cmd.Serve.Words.{Ends, blank, first_word}
use dddns.Prelude.{ap}
use dddns.Prelude.Text.{trim_space}
use dddns.Prelude.{◌∙◌}

abbrev pub answer_of : Reply → HttpAnswer
answer_of r = record { status = r.status; body = r.body }

abbrev pub Passes : Reply → Type 0
Passes r = judge (answer_of r) ≡ ok tt

line_feed : is_space 10 ≡ true
unfolding is_space
line_feed = refl

space : is_space 32 ≡ true
unfolding is_space
space = refl

write_dyndns-body :
    (code ip : Text) → (s : Text) × Ends s × ((write_dyndns code ip).body ≡ code ++ s)
unfolding write_dyndns
write_dyndns-body code [] = (10 ∷ [], blank 10 [] line_feed, refl)
write_dyndns-body code (a ∷ ip) = (
  32 ∷ ((a ∷ ip) ++ 10 ∷ []),
  blank 32 ((a ∷ ip) ++ 10 ∷ []) space,
  append_assoc code (32 ∷ a ∷ ip) (10 ∷ []),
)

judge-write_dyndns :
    (c : ℕ) (w ip : Text)
    → IsSolid (c ∷ w)
    → judge (answer_of (write_dyndns (c ∷ w) ip)) ≡ judge_code ((c ∷ w) ∷ [])
unfolding judge judge_code write_dyndns
judge-write_dyndns c w ip h =
    let (s, e, is) = write_dyndns-body (c ∷ w) ip in
    let (ws, found) = first_word c w s h e in
    ap (λ (b : Text). judge_code (fields (trim_space b))) is ∙ ap judge_code found

all_solid : Text → Bool
all_solid [] = true
all_solid (c ∷ s) = not (is_space c) && all_solid s

IsSolid-of_test : (s : Text) → all_solid s ≡ true → IsSolid s
unfolding all_solid
IsSolid-of_test [] h = tt
IsSolid-of_test (c ∷ s) h = (ground arith, IsSolid-of_test s (ground arith))

-- The test passes on two codes, and on no other that the handler writes.
module _ (ip : Text) where
  judged :
      (c : ℕ) (w : Text)
      → all_solid (c ∷ w) ≡ true
      → judge (answer_of (write_dyndns (c ∷ w) ip)) ≡ judge_code ((c ∷ w) ∷ [])
  judged c w h = judge-write_dyndns c w ip (IsSolid-of_test (c ∷ w) h)

  pub good-Passes : Passes (write_dyndns (codes "good") ip)
  unfolding all_solid is_space judge_code text_eq
  good-Passes = judged b'g' (codes "ood") refl

  pub nochg-Passes : Passes (write_dyndns (codes "nochg") ip)
  unfolding all_solid is_space judge_code text_eq
  nochg-Passes = judged b'n' (codes "ochg") refl

  pub dnserr_fails : ¬ Passes (write_dyndns (codes "dnserr") ip)
  unfolding all_solid is_space judge_code text_eq
  dnserr_fails h = cc (judged b'd' (codes "nserr") refl, h)

  pub panic_fails : ¬ Passes (write_dyndns (codes "911") ip)
  unfolding all_solid is_space judge_code text_eq
  panic_fails h = cc (judged b'9' (codes "11") refl, h)

  pub notfqdn_fails : ¬ Passes (write_dyndns (codes "notfqdn") ip)
  unfolding all_solid is_space judge_code text_eq
  notfqdn_fails h = cc (judged b'n' (codes "otfqdn") refl, h)

  pub nohost_fails : ¬ Passes (write_dyndns (codes "nohost") ip)
  unfolding all_solid is_space judge_code text_eq
  nohost_fails h = cc (judged b'n' (codes "ohost") refl, h)

  pub badauth_fails : ¬ Passes (write_dyndns (codes "badauth") ip)
  unfolding all_solid is_space judge_code text_eq
  badauth_fails h = cc (judged b'b' (codes "adauth") refl, h)
