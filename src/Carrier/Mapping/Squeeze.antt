-- ===== src/Carrier/Mapping/Squeeze.antt =====
-- The loop that collapses underscores in status_mapper.go.
use trackflow.Prelude.{
  ◌≡◌, [], ◌∷◌, refl, true, false, zero, suc, ℕ, Bool, length, ◌≤◌, ◌==◌, arith, ◌<◌, if◌then◌else◌,
  ◌&&◌, ◌||◌, sym, ap, Bool-cases, inl, ◌∙◌, inr,
}
use trackflow.Text.{Text, text, has_part, after_prefix}
use trackflow.Carrier.Mapping.{replace_pairs, collapse}

-- The text without the underscores that follow an underscore.
squeeze_behind : ℕ → Text → Text
squeeze_behind p [] = []
squeeze_behind p (c ∷ s) =
    let rest = squeeze_behind c s in if p == b'_' && c == b'_' then rest else c ∷ rest

pub squeeze : Text → Text
unfolding squeeze_behind
squeeze [] = []
squeeze (c ∷ s) = c ∷ squeeze_behind c s

abbrev has_pair : Text → Bool
has_pair s = has_part s (text "__")

has_pair-cons :
    (c d : ℕ) (s : Text) → has_pair (c ∷ d ∷ s) ≡ ((c == b'_' && d == b'_') || has_pair (d ∷ s))
unfolding has_part after_prefix
has_pair-cons c d s = ground arith

has_pair-nil : has_pair [] ≡ false
unfolding has_part after_prefix
has_pair-nil = refl

has_pair-one : (c : ℕ) → has_pair (c ∷ []) ≡ false
unfolding has_part after_prefix
has_pair-one c = ground arith

squeeze_behind-replace_pairs :
    (p : ℕ) (s : Text) → squeeze_behind p (replace_pairs s) ≡ squeeze_behind p s
unfolding squeeze_behind replace_pairs
squeeze_behind-replace_pairs p [] = refl
squeeze_behind-replace_pairs p (c ∷ []) = refl
squeeze_behind-replace_pairs p (c ∷ d ∷ s) =
    ground (arith, squeeze_behind-replace_pairs b'_' s, squeeze_behind-replace_pairs c (d ∷ s))

squeeze_behind-single : (c : ℕ) (s : Text) → has_pair (c ∷ s) ≡ false → squeeze_behind c s ≡ s
unfolding squeeze_behind
squeeze_behind-single c [] h = refl
squeeze_behind-single c (d ∷ s) h = ground (arith, has_pair-cons c d s, squeeze_behind-single d s)

length-replace_pairs : (s : Text) → length (replace_pairs s) ≤ length s
unfolding replace_pairs
length-replace_pairs [] = omega arith
length-replace_pairs (c ∷ []) = omega arith
length-replace_pairs (c ∷ d ∷ s) =
    ground (arith, length-replace_pairs s, length-replace_pairs (d ∷ s))

shorter : (s : Text) → has_pair s ≡ true → length (replace_pairs s) < length s
unfolding replace_pairs
shorter [] h = cc has_pair-nil
shorter (c ∷ []) h = cc (has_pair-one c)
shorter (c ∷ d ∷ s) h = ground (arith, has_pair-cons c d s, length-replace_pairs s, shorter (d ∷ s))

squeeze-replace_pairs : (s : Text) → squeeze (replace_pairs s) ≡ squeeze s
unfolding squeeze replace_pairs
squeeze-replace_pairs [] = refl
squeeze-replace_pairs (c ∷ []) = refl
squeeze-replace_pairs (c ∷ d ∷ s) =
    ground (arith, squeeze_behind-replace_pairs b'_' s, squeeze_behind-replace_pairs c (d ∷ s))

squeeze-single : (s : Text) → has_pair s ≡ false → squeeze s ≡ s
unfolding squeeze
squeeze-single [] h = refl
squeeze-single (c ∷ s) h = ap (λ r. c ∷ r) (squeeze_behind-single c s h)

collapse-squeeze : (fuel : ℕ) (s : Text) → length s ≤ fuel → collapse fuel s ≡ squeeze s
unfolding collapse
collapse-squeeze zero [] h = sym (squeeze-single [] has_pair-nil)
collapse-squeeze zero (c ∷ s) h = absurd (omega arith)
collapse-squeeze (suc fuel) s h = elim (Bool-cases (has_pair s)) [
  | inl pair ↦ rw pair (
      collapse-squeeze fuel (replace_pairs s) (omega (arith, shorter s pair))
      ∙ squeeze-replace_pairs s)
  | inr single ↦ rw single (sym (squeeze-single s single))
]

squeeze_behind_single : (c : ℕ) (s : Text) → has_pair (c ∷ squeeze_behind c s) ≡ false
unfolding squeeze_behind
squeeze_behind_single c [] = has_pair-one c
squeeze_behind_single c (d ∷ s) =
    ground (arith, squeeze_behind_single d s, has_pair-cons c d (squeeze_behind d s))

squeeze_single : (s : Text) → has_pair (squeeze s) ≡ false
unfolding squeeze
squeeze_single [] = has_pair-nil
squeeze_single (c ∷ s) = squeeze_behind_single c s

-- The loop that replaces "__" by "_" ends, within as many rounds as the text is long, with a text
-- that holds no "__": the text without every underscore that follows an underscore.
pub collapse_lem :
    (s : Text)
    → (collapse (length s) s ≡ squeeze s) × (has_part (collapse (length s) s) (text "__") ≡ false)
collapse_lem s =
    let same = collapse-squeeze (length s) s (omega arith) in (same, rw same (squeeze_single s))
