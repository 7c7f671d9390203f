-- ===== src/Cmd/Serve/Words.antt =====
-- The first word of a reply, as the client of cmd/serve.go takes it from the body.
use dddns.Prelude.{ℕ, ◌≡◌, ◌⊎◌, inl, inr, refl, ap, ◌∙◌, true, false, List, [], ◌∷◌, ◌++◌, reverse}
use dddns.Prelude.Tests.{Bool-cases}
use dddns.Prelude.Text.{Text, is_space, trim_left, trim_space}
use dddns.Updater.Cache.{IsSolid}
use dddns.WanIp.{fields, fields_from, flush}
use mathlib.Core.List.{reverse-cons, reverse-append, append_assoc, append-nil}

-- `strings.TrimSpace` at the end alone.
trim_right : Text → Text
trim_right s = reverse (trim_left (reverse s))

trim_left-snoc :
    (s : Text) (c : ℕ) → is_space c ≡ false → trim_left (s ++ c ∷ []) ≡ trim_left s ++ c ∷ []
unfolding trim_left
trim_left-snoc [] c h = rw h
trim_left-snoc (a ∷ s) c h = elim (Bool-cases (is_space a)) [
  | inl e ↦ rw (e, trim_left) (trim_left-snoc s c h)
  | inr e ↦ rw (e, trim_left)
]

trim_right-cons : (c : ℕ) (s : Text) → is_space c ≡ false → trim_right (c ∷ s) ≡ c ∷ trim_right s
unfolding trim_right
trim_right-cons c s h =
    rw (reverse-cons, trim_left-snoc (reverse s) c h)
      (reverse-append (trim_left (reverse s)) (c ∷ []))

trim_right-append : (w s : Text) → IsSolid w → trim_right (w ++ s) ≡ w ++ trim_right s
trim_right-append [] s h = refl
trim_right-append (c ∷ w) s (h, hs) =
    trim_right-cons c (w ++ s) h ∙ ap (λ t. c ∷ t) (trim_right-append w s hs)

-- Nothing more of the word: the end, or white space.
pub data Ends : Text → Type 0 where
  at_end : Ends []
  blank : (c : ℕ) (s : Text) → is_space c ≡ true → Ends (c ∷ s)

trim_left-blank :
    (s : Text) (c : ℕ)
    → is_space c ≡ true
    → (trim_left (s ++ c ∷ []) ≡ []) ⊎ ((t : Text) × (trim_left (s ++ c ∷ []) ≡ t ++ c ∷ []))
unfolding trim_left
trim_left-blank [] c h = inl (rw h)
trim_left-blank (a ∷ s) c h = elim (Bool-cases (is_space a)) [
  | inl e ↦ rw (e, trim_left) (trim_left-blank s c h)
  | inr e ↦ inr (a ∷ s, rw e)
]

trim_right-Ends : (s : Text) → Ends s → Ends (trim_right s)
unfolding trim_right
trim_right-Ends [] at_end = unfold trim_left in at_end
trim_right-Ends (c ∷ s) (blank _ _ h) = elim (trim_left-blank (reverse s) c h) [
  | inl e ↦ rw (reverse-cons, e) at_end
  | inr (t, e) ↦ rw (reverse-cons, e) (rw reverse-append (blank c (reverse t) h))
]

-- The loop over the bytes goes through a word.
fields_from-append :
    (cur w s : Text) → IsSolid w → fields_from cur (w ++ s) ≡ fields_from (cur ++ w) s
unfolding fields_from
fields_from-append cur [] s h = rw append-nil
fields_from-append cur (c ∷ w) s (h, hs) =
    rw (h, fields_from) (rw append_assoc at (fields_from-append (cur ++ c ∷ []) w s hs))

fields_from-Ends :
    (c : ℕ) (w s : Text) → Ends s → (ws : List Text) × (fields_from (c ∷ w) s ≡ (c ∷ w) ∷ ws)
unfolding fields_from flush
fields_from-Ends c w [] at_end = (_, refl)
fields_from-Ends c w (b ∷ s) (blank _ _ h) = (fields_from [] s, rw h)

trim_space-append :
    (c : ℕ) (w s : Text) → IsSolid (c ∷ w) → trim_space ((c ∷ w) ++ s) ≡ (c ∷ w) ++ trim_right s
unfolding trim_space trim_left trim_right
trim_space-append c w s (h, hs) = rw h (trim_right-append (c ∷ w) s (h, hs))

-- The first word of a body.
pub first_word :
    (c : ℕ) (w s : Text)
    → IsSolid (c ∷ w)
    → Ends s
    → (ws : List Text) × (fields (trim_space ((c ∷ w) ++ s)) ≡ (c ∷ w) ∷ ws)
unfolding fields
first_word c w s h e =
    let (ws, found) = fields_from-Ends c w (trim_right s) (trim_right-Ends s e) in
    (
      ws,
      ap fields (trim_space-append c w s h)
          ∙ fields_from-append [] (c ∷ w) (trim_right s) h
          ∙ found,
    )
