-- ===== src/Text/Laws.antt =====
-- What the other modules use of text comparison and trimming.
use trackflow.Prelude.{
  true, false, ◌≡◌, ◌↔◌, refl, ◌∙◌, ap, [], ◌∷◌, arith, Bool-cases, inl, inr, ℕ,
}
use trackflow.Text.{Text, text_eq, is_space, trim_left, before, trim_right, trim_space, is_empty}

pub text_eq_iff : (s t : Text) → (text_eq s t ≡ true) ↔ (s ≡ t)
unfolding text_eq
text_eq_iff [] [] = ground arith
text_eq_iff [] (d ∷ t) = ground arith
text_eq_iff (c ∷ s) [] = ground arith
text_eq_iff (c ∷ s) (d ∷ t) = ground (arith, text_eq_iff s t)

pub text_eq_refl : (s : Text) → text_eq s s ≡ true
text_eq_refl s = (text_eq_iff s s).1 refl

trim_right-before : (c : _) (s : Text) → trim_right s ≡ s → trim_right (before c s) ≡ before c s
unfolding before trim_right
trim_right-before c [] h = ground arith
trim_right-before c (d ∷ s) h = rw h

trim_right-trim_right : (s : Text) → trim_right (trim_right s) ≡ trim_right s
unfolding trim_right
trim_right-trim_right [] = refl
trim_right-trim_right (c ∷ s) = trim_right-before c (trim_right s) (trim_right-trim_right s)

trim_left-before : (c : _) (s : Text) → is_space c ≡ false → trim_left (before c s) ≡ before c s
unfolding before trim_left
trim_left-before c [] h = ground arith
trim_left-before c (d ∷ s) h = rw h

trim_left-trim_right : (s : Text) → trim_left (trim_right (trim_left s)) ≡ trim_right (trim_left s)
unfolding trim_left trim_right
trim_left-trim_right [] = refl
trim_left-trim_right (c ∷ s) = elim (Bool-cases (is_space c)) [
  | inl space ↦ rw space (trim_left-trim_right s)
  | inr other ↦ rw other (trim_left-before c (trim_right s) other)
]

-- Trimming a second time changes nothing.
pub trim_space-trim_space : (s : Text) → trim_space (trim_space s) ≡ trim_space s
unfolding trim_space
trim_space-trim_space s =
    ap trim_right (trim_left-trim_right s) ∙ trim_right-trim_right (trim_left s)

before-is_empty : (c : ℕ) (s : Text) → is_space c ≡ false → is_empty (before c s) ≡ false
unfolding before
before-is_empty c [] h = ground arith
before-is_empty c (d ∷ s) h = refl

-- A text that starts with another code point than a space is not blank.
pub trim_space_visible :
    (c : ℕ) (s : Text) → is_space c ≡ false → is_empty (trim_space (c ∷ s)) ≡ false
unfolding trim_space
trim_space_visible c s h = rw h (before-is_empty c (trim_right s) h)
