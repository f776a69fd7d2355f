-- ===== src/Decision/Gbm.antt =====
-- The policy bands and the banded model prediction of src/analyzer_ng/core/decision.py.
pub mod Bands
use reportportal_analyzer_ng.Prelude.{
  if◌then◌else◌, ℕ, Bool, true, false, not, ◌&&◌, ◌||◌, Option, none, some, List, [], ◌∷◌, map,
}
use reportportal_analyzer_ng.Floats.{Floats, lt, same, fzero, fone, clamp01}
use reportportal_analyzer_ng.Text.{Text, codes, text_eq, split}
use reportportal_analyzer_ng.Decision.Types.{
  Label, pb, ab, si, nd, ti, same_label, base_labels, is_base, LabelSource, is_human, Method,
  method_gbm, Action, auto, suggest, abstain, AbstainReason, gbm_below_suggest,
  gbm_boilerplate_only_neighbor, Candidate, Features, GbmDecision, DecisionResult, get_or,
  label_text, default_locator, base,
}
use reportportal_analyzer_ng.Decision.Similarity.{frozenset, identifier_jaccard}
use reportportal_analyzer_ng.Decision.Inherit.{stage_a_msg_jaccard}

-- the arguments of the closure `result` in `decide`
pub record Draft (F : Type 0) : Type 0 where
  pub label : Label
  pub issue_type : Text
  pub confidence : F
  pub method : Method
  pub short_circuit : Bool
  pub relevant_item_id : Option ℕ
  pub matched_mode_id : Option ℕ
  pub abstain_reason : Option AbstainReason
  pub probs : Option (List (Label × F))
  pub model_version : Option Text
  pub relevant_label_source : Option LabelSource
  pub relevant_is_auto_analyzed : Bool
  pub calibrated_max_prob : Option F

-- a text that Python takes for true
abbrev pub truthy : Text → Option Text
truthy [] = none
truthy (c ∷ t) = some (c ∷ t)

abbrev pub truthy? : Option Text → Option Text
truthy? none = none
truthy? (some t) = truthy t

-- `gbm.label if gbm.label in BASE_LABELS else "ti"`
abbrev pub gbm_label : Text → Label
gbm_label t =
    if text_eq t (label_text pb)
    then pb
    else if text_eq t (label_text ab)
    then ab
    else if text_eq t (label_text si)
    then si
    else if text_eq t (label_text nd)
    then nd
    else ti

abbrev is_abstain : Action → Bool
is_abstain abstain = true
is_abstain _ = false

abbrev pub has_item : Option ℕ → Bool
has_item none = false
has_item (some i) = true

module _ {F : Type 0} ⦃fl : Floats F⦄ where
  abbrev pub tau_suggest : F
  tau_suggest = fl.ratio 45 100

  -- the four positional arguments, with the defaults of the others
  abbrev pub draft : Label → Text → F → Method → Draft F
  draft label issue_type confidence method = record {
    label = label;
    issue_type = issue_type;
    confidence = confidence;
    method = method;
    short_circuit = false;
    relevant_item_id = none;
    matched_mode_id = none;
    abstain_reason = none;
    probs = none;
    model_version = none;
    relevant_label_source = none;
    relevant_is_auto_analyzed = false;
    calibrated_max_prob = none;
  }

  unfoldable pub band_action : F → Bool → F → Action
  band_action confidence short_circuit tau_auto =
      if short_circuit || fl.le tau_auto confidence
      then auto
      else if fl.le tau_suggest confidence
      then suggest
      else abstain

  unfoldable pub result :
      {C : Type 0} → Features F C → List (Candidate F) → F → Draft F → DecisionResult F C
  unfolding band_action
  result features stage_c tau_auto d =
      let action =
        if same_label d.label ti
        then abstain
        else band_action d.confidence d.short_circuit tau_auto in
      record {
        label = d.label;
        issue_type = d.issue_type;
        confidence = d.confidence;
        method = d.method;
        action = action;
        abstain_reason = if is_abstain action then d.abstain_reason else none;
        relevant_item_id = d.relevant_item_id;
        matched_mode_id = d.matched_mode_id;
        features = features;
        probs = get_or d.probs (if same_label d.label ti then [] else (d.label, d.confidence) ∷ []);
        model_version = d.model_version;
        stage_c = stage_c;
        relevant_label_source = d.relevant_label_source;
        relevant_is_auto_analyzed = d.relevant_is_auto_analyzed;
        calibrated_max_prob = d.calibrated_max_prob;
      }

  unfoldable pub pick_relevant : List (Candidate F) → Label → Option (Candidate F)
  pick_relevant [] label = none
  pick_relevant (c ∷ cs) label =
      let later = pick_relevant cs label in
      if has_item c.item_id && same_label (base c.issue_type) label then some c else later

  -- the guards on the top neighbour, in the order of the code
  abbrev pub floor_holds : {C : Type 0} → Candidate F → Features F C → List Text → Bool
  floor_holds top1 features tokens =
      if not top1.same_error_hash || not (is_human top1.label_source)
      then false
      else if not (same features.hash_gate_blocked fzero)
      then false
      else if same features.status_codes_present fone
          && not (same features.status_codes_match_top1 fone)
      then false
      else if lt {F = F} (identifier_jaccard tokens (frozenset (split top1.msg_text)))
          stage_a_msg_jaccard
      then false
      else is_base (base top1.issue_type)

  unfoldable pub human_confirmed_hash_floor :
      {C : Type 0} → List (Candidate F) → Features F C → List Text → Option (Candidate F)
  human_confirmed_hash_floor [] features tokens = none
  human_confirmed_hash_floor (top1 ∷ rest) features tokens =
      if floor_holds top1 features tokens then some top1 else none

  unfoldable pub boilerplate_only_top1 : Candidate F → List Text → Bool
  boilerplate_only_top1 top1 tokens =
      if top1.same_exception_fp || top1.same_error_hash || lt fzero top1.jaccard_templates
      then false
      else lt {F = F} (identifier_jaccard tokens (frozenset (split top1.msg_text)))
          stage_a_msg_jaccard

  abbrev pub boilerplate_head : List (Candidate F) → List Text → Bool
  boilerplate_head [] tokens = false
  boilerplate_head (top1 ∷ rest) tokens = boilerplate_only_top1 top1 tokens

  -- `{b: float(gbm.probs.get(b, 0.0)) for b in BASE_LABELS}`
  abbrev pub base_probs : GbmDecision F → List (Label × F)
  base_probs gbm = map (λ b. (b, get_or (gbm.probs b) fzero)) base_labels

  -- what every outcome of the prediction carries
  abbrev of_gbm : GbmDecision F → F → Draft F → Draft F
  of_gbm gbm p d = record d {
    probs = some (base_probs gbm);
    model_version = truthy gbm.model_version;
    calibrated_max_prob = some p;
  }

  abbrev abstained : GbmDecision F → F → AbstainReason → Draft F
  abstained gbm p reason =
      of_gbm gbm p (record (draft ti (codes "ti") p method_gbm) { abstain_reason = some reason })

  abbrev pub promoted : GbmDecision F → F → Option (Candidate F) → Draft F
  promoted gbm p none = abstained gbm p gbm_below_suggest
  promoted gbm p (some floor) =
      let flabel = base floor.issue_type in
      of_gbm gbm p
        (record (draft flabel (get_or (truthy? floor.issue_type) (default_locator flabel))
          tau_suggest method_gbm) {
            relevant_item_id = floor.item_id;
            relevant_label_source = floor.label_source;
          })

  abbrev pub supported_by : GbmDecision F → F → Label → Option (Candidate F) → Draft F
  supported_by gbm p label none = of_gbm gbm p (draft label (default_locator label) p method_gbm)
  supported_by gbm p label (some c) =
      of_gbm gbm p
        (record (draft label (get_or (truthy? c.issue_type) (default_locator label)) p method_gbm) {
          relevant_item_id = c.item_id;
          relevant_label_source = c.label_source;
        })

  unfoldable pub gbm_result :
      {C : Type 0} → GbmDecision F → List (Candidate F) → Features F C → List Text → F → Draft F
  gbm_result gbm stage_c features tokens tau_auto =
      let p = clamp01 gbm.max_prob in
      let label = gbm_label gbm.label in
      if same_label label ti || lt p tau_suggest
      then promoted gbm p (human_confirmed_hash_floor stage_c features tokens)
      else if lt p tau_auto && boilerplate_head stage_c tokens
      then abstained gbm p gbm_boilerplate_only_neighbor
      else supported_by gbm p label (pick_relevant stage_c label)
