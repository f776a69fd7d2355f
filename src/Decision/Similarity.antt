-- ===== src/Decision/Similarity.antt =====
-- The identifier-token Jaccard of src/analyzer_ng/core/features.py, which the discriminant gate of
-- the decision and a feature column share.
use reportportal_analyzer_ng.Prelude.{
  ◌==◌, if◌then◌else◌, length, keep, any, is_empty, ℕ, ◌+◌, ◌≡◌, refl, Bool, false, not, ◌&&◌, ◌||◌,
  List, [], ◌∷◌,
}
use reportportal_analyzer_ng.Floats.{Floats, fone, fixed_point}
use reportportal_analyzer_ng.Text.{Text, codes, member, between}

-- `frozenset(ts)`: each token once
unfoldable pub frozenset : List Text → List Text
frozenset [] = []
frozenset (t ∷ ts) = let rest = frozenset ts in if member t rest then rest else t ∷ rest

has_dot : Text → Bool
has_dot t = any (λ c. c == b'.') t

has_scope : Text → Bool
has_scope [] = false
has_scope (c ∷ []) = false
has_scope (c ∷ d ∷ rest) = let later = has_scope (d ∷ rest) in c == b':' && d == b':' || later

has_hump : Text → Bool
has_hump [] = false
has_hump (c ∷ []) = false
has_hump (c ∷ d ∷ rest) =
    let later = has_hump (d ∷ rest) in between b'a' b'z' c && between b'A' b'Z' d || later

-- a match of `\.|::|[a-z][A-Z]` somewhere in the token
unfoldable pub is_identifier : Text → Bool
unfolding has_dot has_scope has_hump
is_identifier t = has_dot t || has_scope t || has_hump t

unfoldable pub identifier_tokens : List Text → List Text
unfolding is_identifier
identifier_tokens ts = keep is_identifier ts

module _ {F : Type 0} ⦃fl : Floats F⦄ where
  unfoldable pub jaccard : List Text → List Text → F
  jaccard a b =
      if is_empty a && is_empty b
      then fone
      else let both = length (keep (λ t. member t b) a) in
        let only_b = length (keep (λ t. not (member t a)) b) in fl.ratio both (length a + only_b)

  unfoldable pub identifier_jaccard : List Text → List Text → F
  unfolding identifier_tokens jaccard
  identifier_jaccard query match =
      let qi = identifier_tokens query in
      let mi = identifier_tokens match in
      if is_empty qi && is_empty mi then jaccard query match else jaccard qi mi

abbrev session : List Text
session = codes "Session.userId" ∷ codes "null" ∷ []

abbrev region : List Text
region = codes "Region.rate" ∷ codes "null" ∷ []

-- Disjoint identifiers count for nothing in common, whatever the boilerplate.
disjoint_identifiers : identifier_jaccard {F = ℕ} session region ≡ 0
unfolding identifier_jaccard
disjoint_identifiers = refl
