-- ===== src/Analysis/Early.antt =====
-- `analyze_item_early` of src/analyzer_ng/core/analysis.py: each item of a launch that is still running
-- is decided as a group of one, and a policy rules what may label it.
pub mod Policy
use reportportal_analyzer_ng.Prelude.{
  if◌then◌else◌, is_empty, ℕ, Bool, true, false, not, ◌&&◌, ◌||◌, Option, none, List, [], ◌∷◌, ◌++◌,
}
use reportportal_analyzer_ng.Floats.{Floats}
use reportportal_analyzer_ng.Text.{Text, codes, text_eq}
use reportportal_analyzer_ng.Decision.Types.{
  pb, si, ti, same_label, Method, method_hash, method_kb, method_gbm, FeatureContext,
  DecisionResult,
}
use reportportal_analyzer_ng.Analysis.Evidence.{ModeMatch, Evidence, Request, decide_item}
use reportportal_analyzer_ng.Analysis.Effects.{
  Effect, write_suggestion, AnalysisResult, is_auto, suggestion_of, record_membership, applied,
  enqueue_llm,
}

pub record EarlySettings (F : Type 0) : Type 0 where
  pub early_item_analysis : Bool
  pub early_label_policy : Text
  pub early_gbm_pb_min : F
  pub llm_on : Bool
  pub judge_tau : F

pub record EarlyItem (F B C : Type 0) : Type 0 where
  pub signature_text : Text
  pub evidence : Evidence F B C

abbrev pub kb_inherit_only : Text
kb_inherit_only = codes "kb_inherit_only"

abbrev pub kb_inherit_and_pb : Text
kb_inherit_and_pb = codes "kb_inherit_and_pb"

abbrev pub is_deterministic : Method → Bool
is_deterministic method_hash = true
is_deterministic method_kb = true
is_deterministic _ = false

abbrev pub is_gbm_method : Method → Bool
is_gbm_method method_gbm = true
is_gbm_method _ = false

abbrev pub allows_deterministic : Text → Bool
allows_deterministic policy = text_eq policy kb_inherit_only || text_eq policy kb_inherit_and_pb

module _ {F C : Type 0} ⦃fl : Floats F⦄ where
  abbrev pub pb_gbm_applies : Text → F → DecisionResult F C → Bool
  pb_gbm_applies policy early_gbm_pb_min d =
      text_eq policy kb_inherit_and_pb
      && is_gbm_method d.method
      && same_label d.label pb
      && fl.le early_gbm_pb_min d.confidence

  unfoldable pub early_applies : Text → F → DecisionResult F C → Bool
  early_applies policy early_gbm_pb_min d =
      is_auto d.action
      && not (same_label d.label ti || same_label d.label si)
      && (is_deterministic d.method && allows_deterministic policy
          || pb_gbm_applies policy early_gbm_pb_min d)

  -- what follows the decision of one item
  abbrev pub early_effects :
      EarlySettings F
      → ℕ
      → DecisionResult F C × Option (ModeMatch F)
      → List (Effect F C) × List AnalysisResult
  early_effects cfg item_id (d, m) =
      let (labelled, results) =
        applied (early_applies cfg.early_label_policy cfg.early_gbm_pb_min d) item_id d in
      (
        record_membership (item_id ∷ []) m
            ++ (write_suggestion (suggestion_of item_id none true d)
                ∷ (enqueue_llm cfg.llm_on cfg.judge_tau item_id d none ++ labelled)),
        results,
      )

module _ {F B C : Type 0} ⦃fl : Floats F⦄ (cfg : EarlySettings F)
    (other_columns : FeatureContext F B → C) (r : Request) (auto_min_prob : F) where
  abbrev pub early_item : EarlyItem F B C → List (Effect F C) × List AnalysisResult
  early_item i =
      if is_empty i.signature_text
      then ([], [])
      else early_effects cfg i.evidence.item_id
          (decide_item other_columns r auto_min_prob i.evidence)

  pub early_items : List (EarlyItem F B C) → List (Effect F C) × List AnalysisResult
  early_items [] = ([], [])
  early_items (i ∷ is) =
      let (effects, results) = early_item i in
      let (later, later_results) = early_items is in (effects ++ later, results ++ later_results)

  -- one launch; the request has the early route
  unfoldable pub analyze_item_early :
      List (EarlyItem F B C) → List (Effect F C) × List AnalysisResult
  unfolding early_items
  analyze_item_early items = if cfg.early_item_analysis then early_items items else ([], [])
