-- ===== src/Decision/Decide/Relevant.antt =====
-- Where the relevant item of a decision comes from.
use reportportal_analyzer_ng.Prelude.{
  Bool-cases, In, ℕ, ◌≡◌, refl, sym, ◌∙◌, ◌⊎◌, inl, inr, ◌&&◌, ◌||◌, Option, none, some, List, [],
  ◌∷◌,
}
use reportportal_analyzer_ng.Floats.{Floats, lt, clamp01}
use reportportal_analyzer_ng.Text.{Text}
use reportportal_analyzer_ng.Decision.Types.{
  Label, ti, same_label, HashMatch, Candidate, KbMatch, SeedSignal, Features, FeatureContext,
  GbmDecision, DecisionInputs, base,
}
use reportportal_analyzer_ng.Decision.Inherit.{stage_a_inherit}
use reportportal_analyzer_ng.Decision.Inherit.Guards.{stage_a_inherit-IsInheritable}
use reportportal_analyzer_ng.Decision.Kb.{best_kb_match, kb_short_circuit}
use reportportal_analyzer_ng.Decision.Gbm.{
  gbm_label, has_item, tau_suggest, result, pick_relevant, floor_holds, human_confirmed_hash_floor,
  boilerplate_head, promoted, supported_by, gbm_result,
}
use reportportal_analyzer_ng.Decision.Decide.{
  seed_prior_min_conf, cold, predicted, by_model, by_mode, by_hash, snapshot, decide,
}

module _ {F : Type 0} ⦃fl : Floats F⦄ where
  -- the item of a candidate
  abbrev pub Neighbour : List (Candidate F) → ℕ → Type 0
  Neighbour stage_c i = (c : Candidate F) × In c stage_c × (c.item_id ≡ some i)

  pick_relevant-In :
      (stage_c : List (Candidate F)) (label : Label) (c : Candidate F)
      → pick_relevant stage_c label ≡ some c
      → In c stage_c
  unfolding pick_relevant
  pick_relevant-In [] label c h = cc
  pick_relevant-In (d ∷ ds) label c h =
      elim (Bool-cases (has_item d.item_id && same_label (base d.issue_type) label)) [
        | inl e ↦ let k : some d ≡ some c = rw e at h in inl (cc k)
        | inr e ↦
            let k : pick_relevant ds label ≡ some c = rw e at h in
            inr (pick_relevant-In ds label c k)
      ]

  human_confirmed_hash_floor-In :
      {C : Type 0} (stage_c : List (Candidate F)) (features : Features F C) (tokens : List Text)
      (c : Candidate F)
      → human_confirmed_hash_floor stage_c features tokens ≡ some c
      → In c stage_c
  unfolding human_confirmed_hash_floor
  human_confirmed_hash_floor-In [] features tokens c h = cc
  human_confirmed_hash_floor-In (d ∷ ds) features tokens c h =
      elim (Bool-cases (floor_holds d features tokens)) [
        | inl e ↦ let k : some d ≡ some c = rw e at h in inl (cc k)
        | inr e ↦ let k : none ≡ some c = rw e at h in cc
      ]

  promoted-Neighbour :
      (gbm : GbmDecision F) (p : F) (o : Option (Candidate F)) (stage_c : List (Candidate F))
      (i : ℕ)
      → ((c : Candidate F) → o ≡ some c → In c stage_c)
      → (promoted gbm p o).relevant_item_id ≡ some i
      → Neighbour stage_c i
  promoted-Neighbour gbm p none stage_c i f h = cc
  promoted-Neighbour gbm p (some c) stage_c i f h = (c, f c refl, h)

  supported_by-Neighbour :
      (gbm : GbmDecision F) (p : F) (label : Label) (o : Option (Candidate F))
      (stage_c : List (Candidate F)) (i : ℕ)
      → ((c : Candidate F) → o ≡ some c → In c stage_c)
      → (supported_by gbm p label o).relevant_item_id ≡ some i
      → Neighbour stage_c i
  supported_by-Neighbour gbm p label none stage_c i f h = cc
  supported_by-Neighbour gbm p label (some c) stage_c i f h = (c, f c refl, h)

  gbm_result-Neighbour :
      {C : Type 0} (gbm : GbmDecision F) (stage_c : List (Candidate F)) (features : Features F C)
      (tokens : List Text) (tau_auto : F) (i : ℕ)
      → (gbm_result gbm stage_c features tokens tau_auto).relevant_item_id ≡ some i
      → Neighbour stage_c i
  unfolding gbm_result
  gbm_result-Neighbour gbm stage_c features tokens tau_auto i h =
      let p = clamp01 gbm.max_prob in
      let label = gbm_label gbm.label in
      elim (Bool-cases (same_label label ti || lt p tau_suggest)) [
        | inl e ↦
            let k : (promoted gbm p
                  (human_confirmed_hash_floor stage_c features tokens)).relevant_item_id
                ≡ some i =
              rw e at h in
            promoted-Neighbour gbm p (human_confirmed_hash_floor stage_c features tokens) stage_c i
              (human_confirmed_hash_floor-In stage_c features tokens) k
        | inr e ↦ elim (Bool-cases (lt p tau_auto && boilerplate_head stage_c tokens)) [
          | inl b ↦ let k : none ≡ some i = rw (e, b) at h in cc
          | inr b ↦
              let k : (supported_by gbm p label (pick_relevant stage_c label)).relevant_item_id
                  ≡ some i =
                rw (e, b) at h in
              supported_by-Neighbour gbm p label (pick_relevant stage_c label) stage_c i
                (pick_relevant-In stage_c label) k
        ]
      ]

  cold-none : (seed : Option (SeedSignal F)) → (cold seed).relevant_item_id ≡ none
  cold-none none = refl
  cold-none (some seed) = elim (Bool-cases (fl.le seed_prior_min_conf seed.confidence)) [
    | inl e ↦ rw e refl
    | inr e ↦ rw e refl
  ]

module _ {F : Type 0} ⦃fl : Floats F⦄ {B C : Type 0} where
  -- a hash match, or a candidate of the retrieval
  abbrev pub FromEvidence : DecisionInputs F B C → ℕ → Type 0
  FromEvidence inputs i =
      ((m : HashMatch F) × In m inputs.hash_matches × (m.item_id ≡ i)) ⊎ Neighbour inputs.stage_c i

  by_model-Neighbour :
      (o : Option (GbmDecision F)) (inputs : DecisionInputs F B C) (features : Features F C)
      (tau_auto : F) (i : ℕ)
      → (by_model o inputs features tau_auto).relevant_item_id ≡ some i
      → Neighbour inputs.stage_c i
  by_model-Neighbour none inputs features tau_auto i h =
      let bad : none ≡ some i = sym (cold-none inputs.seed) ∙ h in cc
  by_model-Neighbour (some gbm) inputs features tau_auto i h =
      gbm_result-Neighbour gbm inputs.stage_c features inputs.query_msg_tokens tau_auto i h

  by_mode-Neighbour :
      (o : Option (KbMatch F × Candidate F)) (inputs : DecisionInputs F B C)
      (features : Features F C) (tau_auto : F) (i : ℕ)
      → (by_mode o inputs features tau_auto).relevant_item_id ≡ some i
      → Neighbour inputs.stage_c i
  by_mode-Neighbour none inputs features tau_auto i h =
      by_model-Neighbour (predicted inputs.gbm_predict features) inputs features tau_auto i h
  by_mode-Neighbour (some (kb, cand)) inputs features tau_auto i h =
      elim (Bool-cases (kb_short_circuit kb)) [
        | inl e ↦ let k : none ≡ some i = rw e at h in cc
        | inr e ↦
            let k : (by_model (predicted inputs.gbm_predict features) inputs features
                  tau_auto).relevant_item_id
                ≡ some i =
              rw e at h in
            by_model-Neighbour (predicted inputs.gbm_predict features) inputs features tau_auto i k
      ]

  by_hash-FromEvidence :
      (o : Option (HashMatch F)) (inputs : DecisionInputs F B C) (features : Features F C)
      (tau_auto : F) (i : ℕ)
      → ((m : HashMatch F) → o ≡ some m → In m inputs.hash_matches)
      → (by_hash o (best_kb_match inputs.kb_candidates) inputs features tau_auto).relevant_item_id
        ≡ some i
      → FromEvidence inputs i
  by_hash-FromEvidence none inputs features tau_auto i f h =
      inr (by_mode-Neighbour (best_kb_match inputs.kb_candidates) inputs features tau_auto i h)
  by_hash-FromEvidence (some m) inputs features tau_auto i f h = inl (m, f m refl, cc h)

  -- The relevant item of a decision is that of a hash match or of a candidate of the retrieval.
  pub decide-FromEvidence :
      (other_columns : FeatureContext F B → C) (inputs : DecisionInputs F B C) (now : ℕ)
      (tau_auto : F) (i : ℕ)
      → (decide other_columns inputs now tau_auto).relevant_item_id ≡ some i
      → FromEvidence inputs i
  unfolding decide result
  decide-FromEvidence other_columns inputs now tau_auto i h =
      let inherit =
        stage_a_inherit inputs.exception_fp inputs.hash_matches inputs.query_status_codes
          inputs.query_msg_tokens now in
      by_hash-FromEvidence inherit inputs (snapshot other_columns inputs) tau_auto i
        (λ m e.
          (stage_a_inherit-IsInheritable inputs.exception_fp inputs.hash_matches
            inputs.query_status_codes inputs.query_msg_tokens now m e).there)
        h
