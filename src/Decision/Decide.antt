-- ===== src/Decision/Decide.antt =====
-- The assembly of a decision in src/analyzer_ng/core/decision.py, with the discriminant columns of
-- the feature snapshot (src/analyzer_ng/core/features.py). The other columns of the snapshot are
-- computed from the context by a function that is a parameter. `query_msg_tokens` and `msg_tokens` are
-- frozen sets already, so `frozenset` of them is left out.
pub mod Provenance
pub mod Relevant
use reportportal_analyzer_ng.Prelude.{
  if◌then◌else◌, is_empty, head?, ℕ, Bool, true, false, not, ◌&&◌, Option, none, some, List, [],
  ◌∷◌,
}
use reportportal_analyzer_ng.Floats.{Floats, fmin, fzero, fone, clamp01}
use reportportal_analyzer_ng.Text.{Text, codes, same_set, split}
use reportportal_analyzer_ng.Decision.Types.{
  ti, method_hash, method_kb, method_rule_cold, no_confident_rule, HashMatch, Candidate, KbMatch,
  SeedSignal, Features, FeatureContext, GbmDecision, DecisionInputs, DecisionResult, get_or,
  label_text, default_locator, base_label, base,
}
use reportportal_analyzer_ng.Decision.Similarity.{frozenset, identifier_tokens, jaccard}
use reportportal_analyzer_ng.Decision.Inherit.{
  stage_a_confidence, discriminant_gate_blocked, stage_a_inherit,
}
use reportportal_analyzer_ng.Decision.Kb.{kb_confidence_cap, best_kb_match, kb_short_circuit}
use reportportal_analyzer_ng.Decision.Gbm.{Draft, truthy?, draft, result, gbm_result}

module _ {F : Type 0} ⦃fl : Floats F⦄ where
  abbrev pub seed_prior_min_conf : F
  seed_prior_min_conf = fl.ratio 7 10

  abbrev flag : Bool → F
  flag b = if b then fone else fzero

  abbrev codes_of : Option (HashMatch F) → List Text
  codes_of none = []
  codes_of (some m) = m.status_codes

  abbrev tokens_of : Option (HashMatch F) → List Text
  tokens_of none = []
  tokens_of (some m) = m.msg_tokens

  abbrev is_there : Option (HashMatch F) → Bool
  is_there none = false
  is_there (some m) = true

  -- the tokens of the best neighbour there is, and where it comes from
  abbrev neighbour : Bool → List Text → List (Candidate F) → Option (List Text × F)
  neighbour true top1_tokens cands = some (top1_tokens, fone)
  neighbour false top1_tokens [] = none
  neighbour false top1_tokens (c ∷ cs) = some (frozenset (split c.msg_text), fl.ratio 5 10)

  abbrev neighbour_jaccard : List Text → Option (List Text × F) → F
  neighbour_jaccard query_ids none = fzero
  neighbour_jaccard query_ids (some (tokens, source)) =
      let ids = identifier_tokens tokens in
      if is_empty query_ids && is_empty ids then fzero else clamp01 (jaccard query_ids ids)

  abbrev neighbour_source : Option (List Text × F) → F
  neighbour_source none = fzero
  neighbour_source (some (tokens, source)) = source

  abbrev pub kb_of : Option (KbMatch F × Candidate F) → Option (KbMatch F)
  kb_of none = none
  kb_of (some (kb, cand)) = some kb

  abbrev pub inherited : HashMatch F → Draft F
  inherited m =
      record (draft (base_label m.issue_type) m.issue_type stage_a_confidence method_hash) {
        short_circuit = true;
        relevant_item_id = some m.item_id;
        relevant_label_source = m.label_source;
        relevant_is_auto_analyzed = m.is_auto_analyzed;
      }

  abbrev pub from_mode : KbMatch F → Candidate F → Draft F
  from_mode kb cand =
      let label = base cand.issue_type in
      record (draft label (get_or (truthy? cand.issue_type) (label_text label))
        (fmin kb_confidence_cap (fl.mul kb.purity kb.score_mode)) method_kb) {
          short_circuit = true;
          matched_mode_id = some kb.mode_id;
        }

  abbrev pub no_rule : Draft F
  no_rule = record (draft ti (codes "ti") fzero method_rule_cold) {
    abstain_reason = some no_confident_rule;
  }

  abbrev pub cold : Option (SeedSignal F) → Draft F
  cold none = no_rule
  cold (some seed) =
      let label = base_label seed.label in
      if fl.le seed_prior_min_conf seed.confidence
      then draft label (default_locator label) seed.confidence method_rule_cold
      else no_rule

module _ {F C : Type 0} where
  abbrev pub predicted :
      Option (Features F C → Option (GbmDecision F)) → Features F C → Option (GbmDecision F)
  predicted none features = none
  predicted (some predict) features = predict features

module _ {F : Type 0} ⦃fl : Floats F⦄ {B C : Type 0} where
  unfoldable pub with_candidates : DecisionInputs F B C → Option (KbMatch F) → FeatureContext F B
  with_candidates inputs kb_best =
      let top1 = head? inputs.hash_matches in
      record {
        base = inputs.feature_ctx;
        candidates = inputs.stage_c;
        candidate_ages_days = inputs.stage_c_ages_days;
        kb_best = kb_best;
        seed = inputs.seed;
        query_status_codes = inputs.query_status_codes;
        query_msg_tokens = inputs.query_msg_tokens;
        top1_status_codes = codes_of top1;
        top1_msg_tokens = tokens_of top1;
        has_hash_top1 = is_there top1;
        gate_blocked =
            discriminant_gate_blocked inputs.exception_fp inputs.hash_matches
              inputs.query_status_codes inputs.query_msg_tokens;
      }

  unfoldable pub extract_features : (FeatureContext F B → C) → FeatureContext F B → Features F C
  extract_features other_columns ctx =
      let query_ids = identifier_tokens ctx.query_msg_tokens in
      let best = neighbour ctx.has_hash_top1 ctx.top1_msg_tokens ctx.candidates in
      record {
        status_codes_present = flag (not (is_empty ctx.query_status_codes));
        identifiers_present = flag (not (is_empty query_ids));
        status_codes_match_top1 = flag (
            ctx.has_hash_top1
            && (not (is_empty ctx.query_status_codes)
                && same_set ctx.query_status_codes ctx.top1_status_codes));
        ident_jaccard_source = neighbour_source best;
        identifier_jaccard_top1 = neighbour_jaccard query_ids best;
        hash_gate_blocked = flag ctx.gate_blocked;
        others = other_columns ctx;
      }

  abbrev pub by_model : Option (GbmDecision F) → DecisionInputs F B C → Features F C → F → Draft F
  by_model none inputs features tau_auto = cold inputs.seed
  by_model (some gbm) inputs features tau_auto =
      gbm_result gbm inputs.stage_c features inputs.query_msg_tokens tau_auto

  abbrev pub by_mode :
      Option (KbMatch F × Candidate F) → DecisionInputs F B C → Features F C → F → Draft F
  by_mode none inputs features tau_auto =
      by_model (predicted inputs.gbm_predict features) inputs features tau_auto
  by_mode (some (kb, cand)) inputs features tau_auto =
      if kb_short_circuit kb
      then from_mode kb cand
      else by_model (predicted inputs.gbm_predict features) inputs features tau_auto

  abbrev pub by_hash :
      Option (HashMatch F)
      → Option (KbMatch F × Candidate F)
      → DecisionInputs F B C
      → Features F C
      → F
      → Draft F
  by_hash none kb_pair inputs features tau_auto = by_mode kb_pair inputs features tau_auto
  by_hash (some m) kb_pair inputs features tau_auto = inherited m

  -- the snapshot that `decide` takes, whichever stage decides
  unfoldable pub snapshot : (FeatureContext F B → C) → DecisionInputs F B C → Features F C
  unfolding extract_features with_candidates
  snapshot other_columns inputs =
      extract_features other_columns
        (with_candidates inputs (kb_of (best_kb_match inputs.kb_candidates)))

  unfoldable pub decide :
      (FeatureContext F B → C) → DecisionInputs F B C → ℕ → F → DecisionResult F C
  unfolding snapshot
  decide other_columns inputs now tau_auto =
      let kb_pair = best_kb_match inputs.kb_candidates in
      let features = snapshot other_columns inputs in
      let inherit =
        stage_a_inherit inputs.exception_fp inputs.hash_matches inputs.query_status_codes
          inputs.query_msg_tokens now in
      result features inputs.stage_c tau_auto (by_hash inherit kb_pair inputs features tau_auto)
