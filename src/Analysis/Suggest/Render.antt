-- ===== src/Analysis/Suggest/Render.antt =====
-- `_render_suggestions` and `_maybe_rubric_fallback` of src/analyzer_ng/core/analysis.py.
use reportportal_analyzer_ng.Prelude.{
  ◌==◌, if◌then◌else◌, length, keep, any, is_empty, ℕ, ◌+◌, ◌-◌, min, Bool, true, false, not, ◌&&◌,
  ◌||◌, Option, none, some, List, [], ◌∷◌, ◌++◌,
}
use reportportal_analyzer_ng.Floats.{Floats, lt, same, fmin, fzero, fone}
use reportportal_analyzer_ng.Text.{Text, codes}
use reportportal_analyzer_ng.Decision.Types.{
  Label, ti, same_label, Candidate, DecisionResult, get_or, base_label,
}
use reportportal_analyzer_ng.Decision.Gbm.{truthy, tau_suggest}
use reportportal_analyzer_ng.Analysis.Effects.{is_auto}
use reportportal_analyzer_ng.Decision.Probability.{calibrated_label_prob}
use reportportal_analyzer_ng.Analysis.Evidence.{first_n}
use reportportal_analyzer_ng.Analysis.Suggest.{
  kb_mode, unlabeled, Band, band_auto, band_suggest, band_below_suggest, Shown, SuggestRow,
  SuggestSettings, provenance_of, is_unlabeled, is_kb_method, suggest_below_max_cap,
  is_gbm_below_suggest, has_reason, has_item_id, known_label, reorder_for_judge,
  suggest_below_floor, capped, cosine_of, add_candidates, argmax, first_declined, listed, reaches,
  is_below,
}

abbrev pub is_below_band : Band → Bool
is_below_band band_below_suggest = true
is_below_band _ = false

module _ {F : Type 0} ⦃fl : Floats F⦄ where
  abbrev pub head_cosine : List (Candidate F) → F → F
  head_cosine [] confidence = confidence
  head_cosine (c ∷ cs) confidence = if same confidence fzero then cosine_of c else confidence

  abbrev pub floor_of : SuggestSettings → F
  floor_of cfg = if cfg.suggest_below_enabled then suggest_below_floor else tau_suggest

  -- the rows at the bar of a suggestion, and the rows under it
  abbrev pub real_all : List (Shown F) → List (Shown F)
  real_all candidates = keep (reaches tau_suggest) candidates

module _ {F C : Type 0} ⦃fl : Floats F⦄ where
  abbrev pub answer : DecisionResult F C → Option ℕ → List (Shown F)
  answer d none = []
  answer d (some i) =
      if same_label d.label ti
      then []
      else record {
        issue_type = d.issue_type;
        item_id = i;
        score = d.confidence;
        es_score = fzero;
        provenance =
            if is_kb_method d.method
            then kb_mode
            else provenance_of d.relevant_label_source d.relevant_is_auto_analyzed;
      }
        ∷ []

  unfoldable pub suggestion_candidates : DecisionResult F C → List (Shown F)
  unfolding add_candidates
  suggestion_candidates d = add_candidates (answer d d.relevant_item_id) d.stage_c

  abbrev pub candidates_of : SuggestSettings → DecisionResult F C → Option ℕ → List (Shown F)
  candidates_of cfg d verdict =
      reorder_for_judge (keep (reaches (floor_of cfg)) (suggestion_candidates d)) verdict
        (is_auto d.action)

  abbrev pub declined_of : DecisionResult F C → List (Shown F) → Option Label → Option (Shown F)
  declined_of d used none = none
  declined_of d used (some group) =
      if is_gbm_below_suggest d.abstain_reason
        && fl.le suggest_below_floor d.confidence
        && lt d.confidence tau_suggest
      then first_declined used d.confidence group d.stage_c
      else none

  abbrev pub all_below : SuggestSettings → DecisionResult F C → List (Shown F) → List (Shown F)
  all_below cfg d candidates =
      let below = keep is_below candidates in
      let used = first_n cfg.suggest_max (real_all candidates) ++ below in
      if cfg.suggest_below_enabled
      then below ++ listed (declined_of d used (argmax d.probs))
      else []

  abbrev pub below_of : SuggestSettings → DecisionResult F C → List (Shown F) → List (Shown F)
  below_of cfg d candidates =
      first_n (min cfg.suggest_below_max suggest_below_max_cap) (all_below cfg d candidates)

  abbrev pub real_of : SuggestSettings → DecisionResult F C → List (Shown F) → List (Shown F)
  real_of cfg d candidates =
      let below = below_of cfg d candidates in
      first_n (if same_label d.label ti then cfg.suggest_max - length below else cfg.suggest_max)
        (real_all candidates)

  unfoldable pub row_band : DecisionResult F C → ℕ → F → Band
  row_band d rel_item score =
      if lt score tau_suggest
      then band_below_suggest
      else if is_auto d.action && has_item_id rel_item d.relevant_item_id
      then band_auto
      else band_suggest

  abbrev pub row_of : (F → F) → DecisionResult F C → ℕ → ℕ → Shown F → SuggestRow F
  row_of percent d reals rank s =
      let band = row_band d s.item_id (capped s) in
      record {
        issue_type = s.issue_type;
        relevant_item = s.item_id;
        match_score = percent (capped s);
        position = rank;
        es_score = s.es_score;
        band = some band;
        provenance = s.provenance;
        conf =
            if not (same_label d.label ti)
              && has_item_id s.item_id d.relevant_item_id
              && lt fzero d.confidence
            then some d.confidence
            else none;
        plabel =
            if known_label (base_label s.issue_type)
            then calibrated_label_prob d (base_label s.issue_type)
            else none;
        narrates = is_below_band band && (rank == reals && has_reason d.abstain_reason);
        is_auto_method = is_auto d.action;
      }

  unfoldable pub rows_from :
      (F → F) → DecisionResult F C → ℕ → ℕ → List (Shown F) → List (SuggestRow F)
  unfolding row_band
  rows_from percent d reals rank [] = []
  rows_from percent d reals rank (s ∷ ss) =
      row_of percent d reals rank s ∷ rows_from percent d reals (rank + 1) ss

  abbrev pub rendered :
      SuggestSettings → (F → F) → DecisionResult F C → List (Shown F) → List (SuggestRow F)
  rendered cfg percent d candidates =
      let real = real_of cfg d candidates in
      rows_from percent d (length real) 0 (real ++ below_of cfg d candidates)

  -- with the item that the judge chose
  unfoldable pub render_suggestions :
      SuggestSettings → (F → F) → DecisionResult F C → Option ℕ → List (SuggestRow F)
  unfolding rows_from suggestion_candidates reorder_for_judge first_declined
  render_suggestions cfg percent d verdict =
      let candidates = candidates_of cfg d verdict in
      if lt (head_cosine d.stage_c d.confidence) (floor_of cfg) || is_empty candidates
      then []
      else rendered cfg percent d candidates

module _ {F : Type 0} ⦃fl : Floats F⦄ where
  abbrev pub is_vouched : SuggestRow F → Bool
  is_vouched row =
      fl.le (fl.mul tau_suggest (fl.ratio 100 1)) row.match_score
      && not (is_unlabeled row.provenance)

  -- the hypothesis that is stored for the item, when the role is on
  unfoldable pub maybe_rubric_fallback :
      List (SuggestRow F) → Option (SuggestRow F) → List (SuggestRow F)
  maybe_rubric_fallback out none = out
  maybe_rubric_fallback out (some rubric) = if any is_vouched out then out else out ++ rubric ∷ []

  abbrev pub rubric_provisional : (F → F) → ℕ → Text → F → SuggestRow F
  rubric_provisional percent item_id label confidence = record {
    issue_type = get_or (truthy label) (codes "ti");
    relevant_item = item_id;
    match_score = percent (fmin fone confidence);
    position = 0;
    es_score = fzero;
    band = none;
    provenance = unlabeled;
    conf = none;
    plabel = none;
    narrates = false;
    is_auto_method = false;
  }
