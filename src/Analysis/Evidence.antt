-- ===== src/Analysis/Evidence.antt =====
-- The evidence for one item, and its decision: `_decide`, `_stage_c` and `_resolve_mode_match` of
-- src/analyzer_ng/core/analysis.py. The stored identity of the item, the rows that the store finds for
-- its hash, the candidates and the seed hit are given.
pub mod InScope
use reportportal_analyzer_ng.Prelude.{
  leb, ◌==◌, if◌then◌else◌, keep, ℕ, zero, suc, ◌-◌, ◌/◌, ◌^◌, Bool, true, false, not, ◌&&◌, ◌||◌,
  Option, none, some, List, [], ◌∷◌, map,
}
use reportportal_analyzer_ng.Floats.{Floats, lt, same, fone}
use reportportal_analyzer_ng.Text.{Text, codes, split}
use reportportal_analyzer_ng.Scope.{
  ScopeQuery, ScopeCandidate, mode, passes_base, in_analyze_scope, analyze_boost, suggest_boost,
}
use reportportal_analyzer_ng.Decision.Types.{
  LabelSource, rp, human, ai_suggested, seed_source, HashMatch, Candidate, KbMatch, SeedSignal,
  Features, FeatureContext, GbmDecision, DecisionInputs, DecisionResult, get_or, is_alpha, take_two,
}
use reportportal_analyzer_ng.Decision.Similarity.{frozenset}
use reportportal_analyzer_ng.Decision.Kb.{score_kb_candidate, best_kb_match}
use reportportal_analyzer_ng.Decision.Gbm.{truthy?}
use reportportal_analyzer_ng.Decision.Decide.{decide}

pub data Route : Type 0 where
  analyze_route analyze_item_early_route suggest_route : Route

-- `route in ANALYZE_SCOPED_ROUTES`
abbrev pub is_scoped : Route → Bool
is_scoped suggest_route = false
is_scoped _ = true

abbrev pub top_k : ℕ
top_k = 20

-- a row that the store finds for an error hash
pub record HashRow : Type 0 where
  pub item_id : ℕ
  pub launch_id : ℕ
  pub launch_name : Option Text
  pub issue_type : Text
  pub issue_type_group : Option Text
  pub label_source : Option LabelSource
  pub label_ts : Option ℕ
  pub is_auto_analyzed : Bool
  pub status_codes : List Text
  pub msg_text : Option Text

pub record ModeMatch (F : Type 0) : Type 0 where
  pub mode_id : ℕ
  pub score : F
  pub matched_by : Text

-- `names` is the launch name of an item, empty where there is none
pub record Evidence (F B C : Type 0) : Type 0 where
  pub item_id : ℕ
  pub exception_fp : ℕ
  pub status_codes : List Text
  pub msg_text : Text
  pub hash_rows : List HashRow
  pub kb_candidates : List (Candidate F)
  pub seed : Option (SeedSignal F)
  pub seed_mode_id : Option ℕ
  pub found : List (Candidate F)
  pub names : ℕ → Text
  pub feature_ctx : B
  pub predictor : Option (Features F C → Option (GbmDecision F))

-- the settings of a request
pub record Request : Type 0 where
  pub route : Route
  pub analyzer_mode : Option Text
  pub scope_query : ScopeQuery
  pub now : ℕ

abbrev pub row_scope : HashRow → ScopeCandidate
row_scope row = record {
  launch_id = row.launch_id;
  launch_name = get_or row.launch_name [];
  issue_type_group = some (get_or row.issue_type_group []);
  is_labeled = true;
}

-- the filter of the route
unfoldable pub is_eligible : Request → ScopeCandidate → Bool
is_eligible r cand =
    if is_scoped r.route
    then in_analyze_scope r.analyzer_mode r.scope_query cand
    else passes_base cand

abbrev pub is_evidence : Request → ℕ → HashRow → Bool
is_evidence r item_id row = not (row.item_id == item_id) && is_eligible r (row_scope row)

abbrev is_there {ℓ} : {A : Type ℓ} → Option A → Bool
is_there none = false
is_there (some a) = true

unfoldable pub first_n : {A : Type 0} → ℕ → List A → List A
first_n zero xs = []
first_n (suc n) [] = []
first_n (suc n) (x ∷ xs) = x ∷ first_n n xs

abbrev vector : Option Text → Text
vector t = get_or (truthy? t) (codes "vector")

abbrev pub has_mode : ℕ → Option ℕ → Bool
has_mode mode none = false
has_mode mode (some m) = m == mode

module _ {F : Type 0} ⦃fl : Floats F⦄ where
  unfoldable pub src_weight : Option LabelSource → F
  src_weight (some rp) = fl.ratio 1 1
  src_weight (some human) = fl.ratio 9 10
  src_weight (some ai_suggested) = fl.ratio 3 10
  src_weight (some seed_source) = fl.ratio 6 10
  src_weight none = fl.ratio 3 10

  abbrev pub match_of : HashRow → HashMatch F
  match_of row = record {
    item_id = row.item_id;
    issue_type = row.issue_type;
    label_source = row.label_source;
    label_ts = row.label_ts;
    confidence = src_weight row.label_source;
    is_auto_analyzed = row.is_auto_analyzed;
    status_codes = row.status_codes;
    msg_tokens = frozenset (split (get_or row.msg_text []));
  }

  abbrev pub hash_matches_of : Request → ℕ → ℕ → List HashRow → List (HashMatch F)
  hash_matches_of r fp item_id rows =
      if fp == 0 then [] else map match_of (keep (is_evidence r item_id) rows)

  abbrev pub candidate_scope : (ℕ → Text) → Candidate F → ScopeCandidate
  candidate_scope names c = record {
    launch_id = get_or c.launch_id 0;
    launch_name = names (get_or c.item_id 0);
    issue_type_group = some (keep is_alpha (take_two (get_or c.issue_type [])));
    is_labeled = is_there c.issue_type;
  }

  abbrev boost_of : Request → ScopeCandidate → F
  boost_of r cand =
      if is_scoped r.route
      then analyze_boost r.analyzer_mode r.scope_query cand
      else suggest_boost r.analyzer_mode r.scope_query cand

  -- the test of the loop: an item, and in the scope of the route
  abbrev pub is_item_in_scope : Request → (ℕ → Text) → Candidate F → Bool
  is_item_in_scope r names c = is_there c.item_id && is_eligible r (candidate_scope names c)

  abbrev boosted : Request → (ℕ → Text) → Candidate F → F × Candidate F
  boosted r names c = (fl.mul c.rrf_score (boost_of r (candidate_scope names c)), c)

  -- the order of the keys `(score, item_id or 0)`
  abbrev rank_le : F × Candidate F → F × Candidate F → Bool
  rank_le a b = lt a.0 b.0 || same a.0 b.0 && leb (get_or a.1.item_id 0) (get_or b.1.item_id 0)

  -- a stable sort, the greatest first
  pub insert_ranked : F × Candidate F → List (F × Candidate F) → List (F × Candidate F)
  insert_ranked x [] = x ∷ []
  insert_ranked x (y ∷ ys) =
      let later = insert_ranked x ys in if rank_le y x then x ∷ y ∷ ys else y ∷ later

  pub ranked : List (F × Candidate F) → List (F × Candidate F)
  unfolding insert_ranked
  ranked [] = []
  ranked (x ∷ xs) = insert_ranked x (ranked xs)

  unfoldable pub stage_c_of : Request → (ℕ → Text) → List (Candidate F) → List (Candidate F)
  unfolding ranked first_n
  stage_c_of r names found =
      first_n top_k
        (map (λ e. e.1) (ranked (map (boosted r names) (keep (is_item_in_scope r names) found))))

  -- `max(0.0, (now - ts).total_seconds() / 86400.0)`, or ten years
  unfoldable pub age_days : Option ℕ → ℕ → F
  age_days none now = fl.ratio 3650 1
  age_days (some ts) now = fl.div (fl.ratio (now - ts) (10 ^ 6)) (fl.ratio 86400 1)

  abbrev pub kb_candidate_score : F
  kb_candidate_score = fl.ratio 70 100

  -- the candidate of the mode that decided
  pub short_circuit_match : ℕ → List (Candidate F) → ModeMatch F
  short_circuit_match mode [] = record { mode_id = mode; score = fone; matched_by = codes "vector" }
  short_circuit_match mode (c ∷ cs) =
      let later = short_circuit_match mode cs in
      if has_mode mode c.mode_id
      then record {
        mode_id = mode;
        score = (score_kb_candidate c).score_mode;
        matched_by = vector c.matched_by;
      }
      else later

  abbrev confidence_of : Option (SeedSignal F) → F
  confidence_of none = fone
  confidence_of (some seed) = seed.confidence

  abbrev grown : Option ℕ → KbMatch F → Candidate F → Option (ModeMatch F)
  grown none kb c = none
  grown (some mode) kb c =
      if fl.le kb_candidate_score kb.score_mode
      then some (record { mode_id = mode; score = kb.score_mode; matched_by = vector c.matched_by })
      else none

  abbrev best_above : Option (KbMatch F × Candidate F) → Option (ModeMatch F)
  best_above none = none
  best_above (some (kb, c)) = grown c.mode_id kb c

  abbrev pub seeded : Option ℕ → Option (SeedSignal F) → List (Candidate F) → Option (ModeMatch F)
  seeded (some mode) seed kb_candidates =
      some (record { mode_id = mode; score = confidence_of seed; matched_by = codes "lexical" })
  seeded none seed kb_candidates = best_above (best_kb_match kb_candidates)

  unfoldable pub mode_match_of :
      Option ℕ → List (Candidate F) → Option ℕ → Option (SeedSignal F) → Option (ModeMatch F)
  unfolding short_circuit_match
  mode_match_of (some mode) kb_candidates seed_mode_id seed =
      some (short_circuit_match mode kb_candidates)
  mode_match_of none kb_candidates seed_mode_id seed = seeded seed_mode_id seed kb_candidates

  abbrev pub stamp_of : Option ℕ → Option (ModeMatch F) → Option ℕ
  stamp_of decided none = decided
  stamp_of decided (some m) = some m.mode_id

  module _ {C : Type 0} where
    -- the match, and the decision that it is stamped onto
    unfoldable pub resolve_mode_match :
        DecisionResult F C
        → List (Candidate F)
        → Option ℕ
        → Option (SeedSignal F)
        → DecisionResult F C × Option (ModeMatch F)
    unfolding mode_match_of
    resolve_mode_match decision kb_candidates seed_mode_id seed =
        let m = mode_match_of decision.matched_mode_id kb_candidates seed_mode_id seed in
        (record decision { matched_mode_id = stamp_of decision.matched_mode_id m }, m)

  module _ {B C : Type 0} where
    unfoldable pub inputs_of : Request → Evidence F B C → DecisionInputs F B C
    unfolding stage_c_of age_days
    inputs_of r e =
        let stage_c = stage_c_of r e.names e.found in
        record {
          exception_fp = e.exception_fp;
          hash_matches = hash_matches_of r e.exception_fp e.item_id e.hash_rows;
          query_status_codes = e.status_codes;
          query_msg_tokens = frozenset (split e.msg_text);
          kb_candidates = e.kb_candidates;
          seed = e.seed;
          stage_c = stage_c;
          stage_c_ages_days = map (λ c. age_days c.label_ts r.now) stage_c;
          feature_ctx = e.feature_ctx;
          gbm_predict = e.predictor;
        }

    -- `_decide`
    unfoldable pub decide_item :
        (FeatureContext F B → C)
        → Request
        → F
        → Evidence F B C
        → DecisionResult F C × Option (ModeMatch F)
    unfolding inputs_of resolve_mode_match
    decide_item other_columns r auto_min_prob e =
        resolve_mode_match (decide other_columns (inputs_of r e) r.now auto_min_prob)
          e.kb_candidates e.seed_mode_id e.seed
