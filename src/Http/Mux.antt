-- ===== src/Http/Mux.antt =====
-- http.ServeMux, as far as the services use it: patterns of literal segments and wildcards, no two of
-- which match one path. A path is given as its segments; `E` stands for what is registered.
use trackflow.Prelude.{List, [], ◌∷◌, Option, none, some, if◌then◌else◌}
use trackflow.Text.{Text, text_eq, is_empty}

pub data Segment : Type 0 where
  literal : Text → Segment
  wildcard : Segment

pub record Route (E : Type 0) : Type 0 where
  pub segments : List Segment
  pub pattern : Text
  pub endpoint : E

abbrev pub route : {E : Type 0} → Text → List Segment → E → Route E
route pattern segments endpoint = record {
  segments = segments;
  pattern = pattern;
  endpoint = endpoint;
}

-- The value of the wildcard, empty where there is none. A wildcard stands for one segment that is
-- not empty.
match_segments : List Segment → List Text → Option Text
match_segments [] [] = some []
match_segments (literal what ∷ segments) (s ∷ path) =
    let rest = match_segments segments path in if text_eq what s then rest else none
match_segments (wildcard ∷ segments) (s ∷ path) =
    if is_empty s
    then none
    else elim (match_segments segments path) [ none ↦ none | some inner ↦ some s ]
match_segments _ _ = none

unfoldable pub find_route : {E : Type 0} → List (Route E) → List Text → Option (Route E × Text)
unfolding match_segments
find_route [] path = none
find_route (first ∷ routes) path =
    let rest = find_route routes path in
    elim (match_segments first.segments path) [ none ↦ rest | some id ↦ some (first, id) ]

-- The pattern of the route that the mux finds, empty where it finds none.
unfoldable pub pattern_of : {E : Type 0} → Option (Route E × Text) → Text
pattern_of none = []
pattern_of (some (found, id)) = found.pattern
