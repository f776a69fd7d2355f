-- ===== src/Analysis/Evidence/InScope.antt =====
-- The scope of a request holds of what its decision points at, and the mode that is stamped on it.
use mathlib.Core.Path.{subst}
use reportportal_analyzer_ng.Prelude.{
  ◌==◌, Bool-cases, keep, In, In-keep, ℕ, zero, suc, ◌≡◌, refl, sym, ap, ◌∙◌, ◌⊎◌, inl, inr, true,
  Option, none, some, List, [], ◌∷◌, map,
}
use reportportal_analyzer_ng.Floats.{Floats}
use reportportal_analyzer_ng.Text.{Text}
use reportportal_analyzer_ng.Decision.Types.{
  HashMatch, Candidate, SeedSignal, FeatureContext, DecisionResult,
}
use reportportal_analyzer_ng.Decision.Decide.Relevant.{FromEvidence, decide-FromEvidence}
use reportportal_analyzer_ng.Analysis.Evidence.{
  top_k, HashRow, ModeMatch, Evidence, Request, is_evidence, first_n, has_mode, match_of,
  hash_matches_of, is_item_in_scope, boosted, rank_le, insert_ranked, ranked, stage_c_of,
  short_circuit_match, seeded, mode_match_of, stamp_of, resolve_mode_match, inputs_of, decide_item,
}

module _ {A D : Type 0} where
  In-map : (f : A → D) (y : D) (xs : List A) → In y (map f xs) → (x : A) × In x xs × (y ≡ f x)
  In-map f y [] i = absurd i
  In-map f y (x ∷ xs) (inl e) = (x, inl refl, e)
  In-map f y (x ∷ xs) (inr i) = let (z, j, e) = In-map f y xs i in (z, inr j, e)

In-first_n : {A : Type 0} (x : A) (n : ℕ) (xs : List A) → In x (first_n n xs) → In x xs
unfolding first_n
In-first_n x zero xs i = absurd i
In-first_n x (suc n) [] i = absurd i
In-first_n x (suc n) (y ∷ ys) (inl e) = inl e
In-first_n x (suc n) (y ∷ ys) (inr i) = inr (In-first_n x n ys i)

-- a row of the item's hash, other than the item and in the scope
abbrev pub EligibleRow : Request → ℕ → List HashRow → ℕ → Type 0
EligibleRow r item_id rows i =
    (row : HashRow) × In row rows × (row.item_id ≡ i) × (is_evidence r item_id row ≡ true)

module _ {F : Type 0} ⦃fl : Floats F⦄ where
  In-insert_ranked :
      (e x : F × Candidate F) (l : List (F × Candidate F)) → In e (insert_ranked x l) → In e (x ∷ l)
  unfolding insert_ranked
  In-insert_ranked e x [] i = i
  In-insert_ranked e x (y ∷ ys) i = elim (Bool-cases (rank_le y x)) [
    | inl b ↦ let j : In e (x ∷ y ∷ ys) = rw b at i in j
    | inr b ↦
        let j : In e (y ∷ insert_ranked x ys) = rw b at i in
        elim j [
          | inl f ↦ inr (inl f)
          | inr k ↦ elim (In-insert_ranked e x ys k) [ inl f ↦ inl f | inr l ↦ inr (inr l) ]
        ]
  ]

  In-ranked : (e : F × Candidate F) (l : List (F × Candidate F)) → In e (ranked l) → In e l
  unfolding ranked
  In-ranked e [] i = i
  In-ranked e (x ∷ xs) i = elim (In-insert_ranked e x (ranked xs) i) [
    | inl f ↦ inl f
    | inr j ↦ inr (In-ranked e xs j)
  ]

  In-stage_c_of :
      (r : Request) (names : ℕ → Text) (found : List (Candidate F)) (c : Candidate F)
      → In c (stage_c_of r names found)
      → In c found × (is_item_in_scope r names c ≡ true)
  unfolding stage_c_of
  In-stage_c_of r names found c i =
      let kept = keep (is_item_in_scope r names) found in
      let sorted = ranked (map (boosted r names) kept) in
      let (e, j, p) = In-map (λ e. e.1) c sorted (In-first_n c top_k (map (λ e. e.1) sorted) i) in
      let (d, k, q) =
        In-map (boosted r names) e kept (In-ranked e (map (boosted r names) kept) j) in
      let same_c : d ≡ c = sym (ap (λ x. x.1) q) ∙ sym p in
      In-keep (is_item_in_scope r names) c found (subst (λ x. In x kept) same_c k)

  -- a candidate of the retrieval in the scope
  abbrev pub EligibleCandidate : Request → (ℕ → Text) → List (Candidate F) → ℕ → Type 0
  EligibleCandidate r names found i =
      (c : Candidate F) × In c found × (c.item_id ≡ some i) × (is_item_in_scope r names c ≡ true)

  In-hash_matches_of :
      (r : Request) (fp item_id : ℕ) (rows : List HashRow) (m : HashMatch F)
      → In m (hash_matches_of r fp item_id rows)
      → EligibleRow r item_id rows m.item_id
  In-hash_matches_of r fp item_id rows m i = elim (Bool-cases (fp == 0)) [
    | inl e ↦ let j : ⊥ = rw e at i in absurd j
    | inr e ↦
        let j : In m (map match_of (keep (is_evidence r item_id) rows)) = rw e at i in
        let (row, k, q) = In-map match_of m (keep (is_evidence r item_id) rows) j in
        let (l, ok) = In-keep (is_evidence r item_id) row rows k in
        (row, l, ap (λ x. x.item_id) (sym q), ok)
  ]

  module _ {B C : Type 0} where
    inputs_of_eligible :
        (r : Request) (e : Evidence F B C) (i : ℕ)
        → FromEvidence (inputs_of r e) i
        → EligibleRow r e.item_id e.hash_rows i ⊎ EligibleCandidate r e.names e.found i
    unfolding inputs_of
    inputs_of_eligible r e i (inl (m, j, q)) = inl (
        subst (EligibleRow r e.item_id e.hash_rows) q
          (In-hash_matches_of r e.exception_fp e.item_id e.hash_rows m j))
    inputs_of_eligible r e i (inr (c, j, q)) =
        let (k, ok) = In-stage_c_of r e.names e.found c j in inr (c, k, q, ok)

    -- The item that a decision points at is a row of the same hash that is not the item itself, or a
    -- candidate of the retrieval, and the filter of the route and of the analyzer mode admits it.
    pub decide_item_in_scope :
        (other_columns : FeatureContext F B → C) (r : Request) (auto_min_prob : F)
        (e : Evidence F B C) (i : ℕ)
        → (decide_item other_columns r auto_min_prob e).0.relevant_item_id ≡ some i
        → EligibleRow r e.item_id e.hash_rows i ⊎ EligibleCandidate r e.names e.found i
    unfolding decide_item resolve_mode_match
    decide_item_in_scope other_columns r auto_min_prob e i h =
        inputs_of_eligible r e i
          (decide-FromEvidence other_columns (inputs_of r e) r.now auto_min_prob i h)

module _ {F : Type 0} where
  abbrev pub mode_of : Option (ModeMatch F) → Option ℕ
  mode_of none = none
  mode_of (some m) = some m.mode_id

module _ {F : Type 0} ⦃fl : Floats F⦄ where
  short_circuit_match_mode :
      (mode : ℕ) (cs : List (Candidate F)) → (short_circuit_match mode cs).mode_id ≡ mode
  unfolding short_circuit_match
  short_circuit_match_mode mode [] = refl
  short_circuit_match_mode mode (c ∷ cs) = elim (Bool-cases (has_mode mode c.mode_id)) [
    | inl e ↦ rw e refl
    | inr e ↦ rw e (short_circuit_match_mode mode cs)
  ]

  stamp_of_any : (m : Option (ModeMatch F)) → stamp_of {F = F} none m ≡ mode_of m
  stamp_of_any none = refl
  stamp_of_any (some m) = refl

  stamp_of_lem :
      (decided : Option ℕ) (kb_candidates : List (Candidate F)) (seed_mode_id : Option ℕ)
      (seed : Option (SeedSignal F))
      → let m = mode_match_of decided kb_candidates seed_mode_id seed in
        (stamp_of {F = F} decided m ≡ mode_of m)
        × ((mode : ℕ) → decided ≡ some mode → mode_of m ≡ some mode)
  unfolding mode_match_of
  stamp_of_lem none kb_candidates seed_mode_id seed =
      (stamp_of_any (seeded seed_mode_id seed kb_candidates), λ mode h. cc)
  stamp_of_lem (some d) kb_candidates seed_mode_id seed =
      (refl, λ mode h. ap some (short_circuit_match_mode d kb_candidates) ∙ h)

  -- The mode on the decision is the mode of the match that the membership is recorded for, none where
  -- there is no match; and a mode that the decision itself had stays.
  pub resolve_mode_match_lem :
      {C : Type 0} (d : DecisionResult F C) (kb_candidates : List (Candidate F))
      (seed_mode_id : Option ℕ) (seed : Option (SeedSignal F))
      → let out = resolve_mode_match d kb_candidates seed_mode_id seed in
        (out.0.matched_mode_id ≡ mode_of out.1)
        × ((mode : ℕ) → d.matched_mode_id ≡ some mode → out.0.matched_mode_id ≡ some mode)
  unfolding resolve_mode_match
  resolve_mode_match_lem d kb_candidates seed_mode_id seed =
      let (same_mode, keeps) = stamp_of_lem d.matched_mode_id kb_candidates seed_mode_id seed in
      (same_mode, λ mode h. same_mode ∙ keeps mode h)
