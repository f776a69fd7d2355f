-- ===== src/Analysis/Effects.antt =====
-- What the read path of src/analyzer_ng/core/analysis.py writes for a decision: the suggestion row, the
-- memberships of its failure mode, the jobs for the language model and the label of the item.
-- A payload of a job, the launch of a row and the version of the model are left out.
pub mod Written
use reportportal_analyzer_ng.Prelude.{
  leb, if◌then◌else◌, ℕ, Bool, true, false, not, ◌&&◌, Option, none, some, List, [], ◌∷◌,
}
use reportportal_analyzer_ng.Floats.{Floats, lt}
use reportportal_analyzer_ng.Text.{Text}
use reportportal_analyzer_ng.Decision.Types.{
  ti, same_label, LabelSource, human, is_human, Method, method_hash, Action, auto, AbstainReason,
  Features, DecisionResult, get_or,
}
use reportportal_analyzer_ng.Decision.Gbm.{tau_suggest}
use reportportal_analyzer_ng.Analysis.Evidence.{ModeMatch}

pub data Role : Type 0 where
  extractor abstain_explainer coldstart explainer judge : Role

-- the neighbour, whether a human labelled it, and the label of "Inherited from item …"
pub record Explanation : Type 0 where
  pub inherited_from : ℕ
  pub by_human : Bool
  pub label : Text

pub record SuggestionIn (F C : Type 0) : Type 0 where
  pub item_id : ℕ
  pub group_id : Option ℕ
  pub predicted_label : Text
  pub confidence : F
  pub matched_mode_id : Option ℕ
  pub matched_item_id : Option ℕ
  pub features : Features F C
  pub explanation : Option Explanation
  pub method : Method
  pub abstain_reason : Option AbstainReason
  pub is_early : Bool

pub data Effect (F C : Type 0) : Type 0 where
  write_suggestion : SuggestionIn F C → Effect F C
  add_members : ℕ → List ℕ → F → Text → Effect F C
  enqueue : Role → ℕ → Effect F C
  update_issue_type : ℕ → Text → Effect F C
  upsert_launch_group : ℕ → ℕ → F → Bool → Effect F C

pub record AnalysisResult : Type 0 where
  pub item_id : ℕ
  pub issue_type : Text
  pub relevant_item : ℕ

abbrev pub is_auto : Action → Bool
is_auto auto = true
is_auto _ = false

abbrev pub is_hash_method : Method → Bool
is_hash_method method_hash = true
is_hash_method _ = false

abbrev explained : Method → Option ℕ → Option LabelSource → Text → Option Explanation
explained method_hash (some item) source label =
    some (record { inherited_from = item; by_human = is_human source; label = label })
explained _ _ source label = none

module _ {F C : Type 0} where
  abbrev pub stage_a_explanation : DecisionResult F C → Option Explanation
  stage_a_explanation d = explained d.method d.relevant_item_id d.relevant_label_source d.issue_type

  abbrev pub suggestion_of : ℕ → Option ℕ → Bool → DecisionResult F C → SuggestionIn F C
  suggestion_of item_id group_id is_early d = record {
    item_id = item_id;
    group_id = group_id;
    predicted_label = d.issue_type;
    confidence = d.confidence;
    matched_mode_id = d.matched_mode_id;
    matched_item_id = d.relevant_item_id;
    features = d.features;
    explanation = stage_a_explanation d;
    method = d.method;
    abstain_reason = d.abstain_reason;
    is_early = is_early;
  }

  -- nothing without a match or without items
  abbrev pub record_membership : List ℕ → Option (ModeMatch F) → List (Effect F C)
  record_membership [] m = []
  record_membership (i ∷ is) none = []
  record_membership (i ∷ is) (some m) = add_members m.mode_id (i ∷ is) m.score m.matched_by ∷ []

  abbrev pub result_of : ℕ → DecisionResult F C → AnalysisResult
  result_of item_id d = record {
    item_id = item_id;
    issue_type = d.issue_type;
    relevant_item = get_or d.relevant_item_id 0;
  }

  -- the label and the answer, for a decision that applies
  abbrev pub applied : Bool → ℕ → DecisionResult F C → List (Effect F C) × List AnalysisResult
  applied true item_id d = (update_issue_type item_id d.issue_type ∷ [], result_of item_id d ∷ [])
  applied false item_id d = ([], [])

-- the size of the list of candidates, where there is one
abbrev has_two : Option ℕ → Bool
has_two none = false
has_two (some n) = leb 2 n

module _ {F C : Type 0} ⦃fl : Floats F⦄ where
  abbrev pub if_enqueue : Bool → Role → ℕ → List (Effect F C)
  if_enqueue true role item_id = enqueue role item_id ∷ []
  if_enqueue false role item_id = []

  abbrev pub narrated : F → ℕ → DecisionResult F C → Option ℕ → List (Effect F C)
  narrated judge_tau item_id d candidates =
      if fl.le tau_suggest d.confidence
      then enqueue explainer item_id
        ∷ if_enqueue (lt d.confidence judge_tau && has_two candidates) judge item_id
      else []

  -- `_enqueue_llm`, with the suggestion row written
  unfoldable pub enqueue_llm : Bool → F → ℕ → DecisionResult F C → Option ℕ → List (Effect F C)
  enqueue_llm llm_on judge_tau item_id d candidates =
      if not llm_on
      then []
      else enqueue extractor item_id
        ∷ (if same_label d.label ti
            then enqueue abstain_explainer item_id ∷ enqueue coldstart item_id ∷ []
            else if is_hash_method d.method
            then []
            else narrated judge_tau item_id d candidates)
