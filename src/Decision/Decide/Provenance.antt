-- ===== src/Decision/Decide/Provenance.antt =====
-- Where a decision that is applied automatically comes from.
use reportportal_analyzer_ng.Prelude.{
  Bool-cases, Option-cases, ℕ, ◌≡◌, refl, ◌≢◌, inl, inr, true, Option, none, some, List, arith,
}
use reportportal_analyzer_ng.Text.{Text}
use reportportal_analyzer_ng.Floats.{Floats, lt, clamp01}
use reportportal_analyzer_ng.Decision.Types.{
  Label, ti, method_hash, method_kb, method_gbm, auto, HashMatch, Candidate, KbMatch, SeedSignal,
  Features, FeatureContext, GbmDecision, DecisionInputs,
}
use reportportal_analyzer_ng.Decision.Inherit.{discriminant_gate_blocked, stage_a_inherit}
use reportportal_analyzer_ng.Decision.Inherit.Guards.{
  IsInheritable, stage_a_inherit-IsInheritable, blocked-never_inherits,
}
use reportportal_analyzer_ng.Decision.Kb.{best_kb_match, kb_short_circuit}
use reportportal_analyzer_ng.Decision.Gbm.{
  gbm_label, tau_suggest, band_action, result, pick_relevant, human_confirmed_hash_floor, promoted,
  supported_by, gbm_result,
}
use reportportal_analyzer_ng.Decision.Gbm.Bands.{gbm_bands}
use reportportal_analyzer_ng.Decision.Decide.{
  cold, predicted, by_model, by_mode, by_hash, snapshot, decide,
}

module _ {F : Type 0} ⦃fl : Floats F⦄ where
  promoted-method :
      (gbm : GbmDecision F) (p : F) (o : Option (Candidate F))
      → (promoted gbm p o).method ≡ method_gbm
  promoted-method gbm p none = refl
  promoted-method gbm p (some c) = refl

  supported_by-method :
      (gbm : GbmDecision F) (p : F) (l : Label) (o : Option (Candidate F))
      → (supported_by gbm p l o).method ≡ method_gbm
  supported_by-method gbm p l none = refl
  supported_by-method gbm p l (some c) = refl

module _ {F C : Type 0} ⦃fl : Floats F⦄ where
  gbm_result-method :
      (gbm : GbmDecision F) (stage_c : List (Candidate F)) (features : Features F C)
      (tokens : List Text) (tau_auto : F)
      → (gbm_result gbm stage_c features tokens tau_auto).method ≡ method_gbm
  unfolding gbm_result
  gbm_result-method gbm stage_c features tokens tau_auto =
      let p = clamp01 gbm.max_prob in
      let label = gbm_label gbm.label in
      ground (
        arith,
        promoted-method gbm p (human_confirmed_hash_floor stage_c features tokens),
        supported_by-method gbm p label (pick_relevant stage_c label),
      )

-- the grounds on which a label may be applied without review
module _ {F : Type 0} ⦃fl : Floats F⦄ {B C : Type 0} where
  pub data IsJustified (inputs : DecisionInputs F B C) (features : Features F C) (now : ℕ)
      (tau_auto : F) : Type 0 where
    by_inheritance :
        (m : HashMatch F)
        → IsInheritable inputs.exception_fp inputs.hash_matches inputs.query_status_codes
            inputs.query_msg_tokens now m
        → IsJustified inputs features now tau_auto
    by_known_mode :
        (kb : KbMatch F) (cand : Candidate F)
        → best_kb_match inputs.kb_candidates ≡ some (kb, cand)
        → kb_short_circuit kb ≡ true
        → IsJustified inputs features now tau_auto
    by_prediction :
        (gbm : GbmDecision F)
        → predicted inputs.gbm_predict features ≡ some gbm
        → fl.le tau_auto (clamp01 gbm.max_prob) ≡ true
        → gbm_label gbm.label ≢ ti
        → IsJustified inputs features now tau_auto
    by_seed :
        (seed : SeedSignal F)
        → inputs.seed ≡ some seed
        → fl.le tau_auto seed.confidence ≡ true
        → IsJustified inputs features now tau_auto

  cold-auto :
      (o : Option (SeedSignal F)) (inputs : DecisionInputs F B C) (features : Features F C)
      (now : ℕ) (tau_auto : F)
      → inputs.seed ≡ o
      → (result features inputs.stage_c tau_auto (cold o)).action ≡ auto
      → IsJustified inputs features now tau_auto
  unfolding result band_action
  cold-auto none inputs features now tau_auto e h = cc
  cold-auto (some seed) inputs features now tau_auto e h = by_seed seed e (ground arith)

  model-auto :
      (o : Option (GbmDecision F)) (inputs : DecisionInputs F B C) (features : Features F C)
      (now : ℕ) (tau_auto : F)
      → lt tau_suggest tau_auto ≡ true
      → predicted inputs.gbm_predict features ≡ o
      → (result features inputs.stage_c tau_auto (by_model o inputs features tau_auto)).action
        ≡ auto
      → IsJustified inputs features now tau_auto
  model-auto none inputs features now tau_auto l e h =
      cold-auto inputs.seed inputs features now tau_auto refl h
  model-auto (some gbm) inputs features now tau_auto l e h =
      let (p, n) =
        (gbm_bands gbm inputs.stage_c features inputs.query_msg_tokens tau_auto l).0.0 h in
      by_prediction gbm e p n

  mode-auto :
      (o : Option (KbMatch F × Candidate F)) (inputs : DecisionInputs F B C)
      (features : Features F C) (now : ℕ) (tau_auto : F)
      → lt tau_suggest tau_auto ≡ true
      → best_kb_match inputs.kb_candidates ≡ o
      → (result features inputs.stage_c tau_auto (by_mode o inputs features tau_auto)).action ≡ auto
      → IsJustified inputs features now tau_auto
  mode-auto none inputs features now tau_auto l e h =
      model-auto (predicted inputs.gbm_predict features) inputs features now tau_auto l refl h
  mode-auto (some (kb, cand)) inputs features now tau_auto l e h =
      elim (Bool-cases (kb_short_circuit kb)) [
        | inl b ↦ by_known_mode kb cand e b
        | inr b ↦
            model-auto (predicted inputs.gbm_predict features) inputs features now tau_auto l refl
              (rw b at h)
      ]

  hash-auto :
      (o : Option (HashMatch F)) (inputs : DecisionInputs F B C) (features : Features F C) (now : ℕ)
      (tau_auto : F)
      → lt tau_suggest tau_auto ≡ true
      → stage_a_inherit inputs.exception_fp inputs.hash_matches inputs.query_status_codes
          inputs.query_msg_tokens now
        ≡ o
      → (result features inputs.stage_c tau_auto
          (by_hash o (best_kb_match inputs.kb_candidates) inputs features tau_auto)).action
        ≡ auto
      → IsJustified inputs features now tau_auto
  hash-auto none inputs features now tau_auto l e h =
      mode-auto (best_kb_match inputs.kb_candidates) inputs features now tau_auto l refl h
  hash-auto (some m) inputs features now tau_auto l e h = by_inheritance m (
      stage_a_inherit-IsInheritable inputs.exception_fp inputs.hash_matches
        inputs.query_status_codes inputs.query_msg_tokens now m e)

  -- With the suggest threshold below the auto threshold, a decision is applied automatically only on
  -- one of four grounds: a match that passes every guard of inheritance; the best known mode, which
  -- passes the short-circuit test; a model prediction of a base label whose clamped probability
  -- reaches the auto threshold; a seed signal whose confidence does.
  pub decide-IsJustified :
      (other_columns : FeatureContext F B → C) (inputs : DecisionInputs F B C) (now : ℕ)
      (tau_auto : F)
      → lt tau_suggest tau_auto ≡ true
      → (decide other_columns inputs now tau_auto).action ≡ auto
      → IsJustified inputs (snapshot other_columns inputs) now tau_auto
  unfolding decide
  decide-IsJustified other_columns inputs now tau_auto l h =
      hash-auto
        (stage_a_inherit inputs.exception_fp inputs.hash_matches inputs.query_status_codes
          inputs.query_msg_tokens now)
        inputs (snapshot other_columns inputs) now tau_auto l refl h

  by_model-method :
      (o : Option (GbmDecision F)) (inputs : DecisionInputs F B C) (features : Features F C)
      (tau_auto : F)
      → (by_model o inputs features tau_auto).method ≢ method_hash
  by_model-method none inputs features tau_auto h = elim (Option-cases inputs.seed) [
    | inl e ↦ ground arith
    | inr (s, e) ↦ ground arith
  ]
  by_model-method (some gbm) inputs features tau_auto h =
      let k = gbm_result-method gbm inputs.stage_c features inputs.query_msg_tokens tau_auto in cc

  by_mode-method :
      (o : Option (KbMatch F × Candidate F)) (inputs : DecisionInputs F B C)
      (features : Features F C) (tau_auto : F)
      → (by_mode o inputs features tau_auto).method ≢ method_hash
  by_mode-method none inputs features tau_auto h =
      by_model-method (predicted inputs.gbm_predict features) inputs features tau_auto h
  by_mode-method (some (kb, cand)) inputs features tau_auto h =
      elim (Bool-cases (kb_short_circuit kb)) [
        | inl b ↦ let k : method_kb ≡ method_hash = rw b at h in cc
        | inr b ↦
            by_model-method (predicted inputs.gbm_predict features) inputs features tau_auto
              (rw b at h)
      ]

  -- When the discriminant gate has rejected every hash match, the decision is made by another method
  -- than inheritance.
  pub decide-blocked :
      (other_columns : FeatureContext F B → C) (inputs : DecisionInputs F B C) (now : ℕ)
      (tau_auto : F)
      → discriminant_gate_blocked inputs.exception_fp inputs.hash_matches inputs.query_status_codes
          inputs.query_msg_tokens
        ≡ true
      → (decide other_columns inputs now tau_auto).method ≢ method_hash
  unfolding decide result
  decide-blocked other_columns inputs now tau_auto b h =
      by_mode-method (best_kb_match inputs.kb_candidates) inputs (snapshot other_columns inputs)
        tau_auto
        (rw
          (blocked-never_inherits inputs.exception_fp inputs.hash_matches inputs.query_status_codes
            inputs.query_msg_tokens now b)
          at h)
