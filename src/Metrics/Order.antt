-- ===== src/Metrics/Order.antt =====
-- The order of the routes in a snapshot.
use trackflow.Prelude.{◌≡◌, [], ◌∷◌, true, false, arith, refl}
use trackflow.Text.{Text, text_eq}
use trackflow.Text.Laws.{text_eq_iff}
use trackflow.Metrics.{MetricKey, key_eq, key_ltb, text_ltb}

text_ltb_irrefl : (s : Text) → text_ltb s s ≡ false
unfolding text_ltb
text_ltb_irrefl [] = refl
text_ltb_irrefl (c ∷ s) = ground (arith, text_ltb_irrefl s)

text_ltb_asym : (s t : Text) → text_ltb s t ≡ true → text_ltb t s ≡ false
unfolding text_ltb
text_ltb_asym s [] h = cc
text_ltb_asym [] (d ∷ t) h = refl
text_ltb_asym (c ∷ s) (d ∷ t) h = ground (arith, text_ltb_asym s t)

text_ltb_trans : (s t u : Text) → text_ltb s t ≡ true → text_ltb t u ≡ true → text_ltb s u ≡ true
unfolding text_ltb
text_ltb_trans s [] u h k = cc
text_ltb_trans s (d ∷ t) [] h k = cc
text_ltb_trans [] (d ∷ t) (e ∷ u) h k = refl
text_ltb_trans (c ∷ s) (d ∷ t) (e ∷ u) h k = ground (arith, text_ltb_trans s t u)

text_ltb_total : (s t : Text) → text_ltb s t ≡ false → text_eq s t ≡ false → text_ltb t s ≡ true
unfolding text_ltb text_eq
text_ltb_total [] [] h k = cc
text_ltb_total (c ∷ s) [] h k = refl
text_ltb_total [] (d ∷ t) h k = cc
text_ltb_total (c ∷ s) (d ∷ t) h k = ground (arith, text_ltb_total s t)

pub key_ltb_asym : (a b : MetricKey) → key_ltb a b ≡ true → key_ltb b a ≡ false
unfolding key_ltb
key_ltb_asym a b h = ground (
  arith,
  text_eq_iff a.route b.route,
  text_eq_iff b.route a.route,
  text_eq_iff a.method b.method,
  text_eq_iff b.method a.method,
  text_ltb_asym a.route b.route,
  text_ltb_asym a.method b.method,
)

pub key_ltb_total :
    (a b : MetricKey) → key_ltb a b ≡ false → key_eq a b ≡ false → key_ltb b a ≡ true
unfolding key_ltb key_eq
key_ltb_total a b h k = ground (
  arith,
  text_eq_iff a.route b.route,
  text_eq_iff b.route a.route,
  text_eq_iff a.method b.method,
  text_eq_iff b.method a.method,
  text_ltb_total a.route b.route,
  text_ltb_total a.method b.method,
)

pub key_ltb_trans :
    (a b c : MetricKey) → key_ltb a b ≡ true → key_ltb b c ≡ true → key_ltb a c ≡ true
unfolding key_ltb
key_ltb_trans a b c h k = ground (
  arith,
  text_eq_iff a.route b.route,
  text_eq_iff b.route c.route,
  text_eq_iff a.route c.route,
  text_eq_iff a.method b.method,
  text_eq_iff b.method c.method,
  text_eq_iff a.method c.method,
  text_ltb_trans a.route b.route c.route,
  text_ltb_trans a.method b.method c.method,
  text_ltb_asym a.route b.route,
  text_ltb_asym a.method b.method,
  text_ltb_irrefl a.route,
)

pub key_eq_sym : (a b : MetricKey) → key_eq a b ≡ key_eq b a
unfolding key_eq
key_eq_sym a b = ground (
  arith,
  text_eq_iff a.route b.route,
  text_eq_iff b.route a.route,
  text_eq_iff a.method b.method,
  text_eq_iff b.method a.method,
)
