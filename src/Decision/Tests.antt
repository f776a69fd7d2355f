-- ===== src/Decision/Tests.antt =====
-- Decisions with numbers of ten-thousandths for floats.
use reportportal_analyzer_ng.Prelude.{
  leb, In, ℕ, ◌≡◌, refl, ◌≢◌, ◌↔◌, true, false, none, some, List, [], ◌∷◌,
}
use reportportal_analyzer_ng.Floats.{clamp01, fixed_point}
use reportportal_analyzer_ng.Text.{Text, codes}
use reportportal_analyzer_ng.Decision.Types.{
  Label, pb, ab, si, ti, human, method_hash, method_gbm, auto, abstain, HashMatch, Candidate,
  Features, FeatureContext, GbmDecision, DecisionInputs, DecisionResult, base_label,
}
use reportportal_analyzer_ng.Decision.Similarity.{identifier_jaccard}
use reportportal_analyzer_ng.Decision.Inherit.{
  discriminant_gate_blocked, newest_from, stage_a_inherit,
}
use reportportal_analyzer_ng.Decision.Inherit.Guards.{IsInheritable, stage_a_inherit-IsInheritable}
use reportportal_analyzer_ng.Decision.Kb.{score_kb_candidate, best_kb_match}
use reportportal_analyzer_ng.Decision.Kb.Best.{Pair, IsAtLeast, best_kb_match-IsGreatest}
use reportportal_analyzer_ng.Decision.Gbm.{gbm_label, result}
use reportportal_analyzer_ng.Decision.Gbm.Bands.{decided, gbm_bands}
use reportportal_analyzer_ng.Decision.Decide.{snapshot, decide}
use reportportal_analyzer_ng.Decision.Decide.Provenance.{
  IsJustified, decide-IsJustified, decide-blocked,
}

abbrev match : Text → ℕ → HashMatch ℕ
match status ts = record {
  item_id = 11;
  issue_type = codes "pb001";
  label_source = some human;
  label_ts = some ts;
  confidence = 9500;
  is_auto_analyzed = false;
  status_codes = status ∷ [];
  msg_tokens = codes "com.example.Foo" ∷ [];
}

abbrev statuses : List Text
statuses = codes "500" ∷ []

abbrev tokens : List Text
tokens = codes "com.example.Foo" ∷ []

abbrev two_matches : List (HashMatch ℕ)
two_matches = match (codes "500") 10 ∷ match (codes "500") 20 ∷ []

abbrev strangers : List (HashMatch ℕ)
strangers = match (codes "404") 10 ∷ []

abbrev candidate : ℕ → ℕ → Candidate ℕ
candidate mode cosine = record {
  item_id = some 7;
  mode_id = some mode;
  cosine = some cosine;
  jaccard_templates = 8000;
  issue_type = some (codes "ab001");
  label_source = some human;
  same_error_hash = false;
  same_exception_fp = true;
  msg_text = codes "com.example.Foo failed";
  mode_status = some (codes "confirmed");
  mode_purity = some 9900;
  mode_support = some 40;
  rrf_score = 100;
  launch_id = some 5;
  label_ts = none;
  matched_by = none;
}

abbrev modes : List (Candidate ℕ)
modes = candidate 1 7000 ∷ candidate 2 9000 ∷ []

abbrev prediction : GbmDecision ℕ
prediction = record {
  label = codes "si";
  max_prob = 8000;
  probs = λ l. none;
  model_version = codes "gbm-1";
}

abbrev inputs_of : List (HashMatch ℕ) → DecisionInputs ℕ (Unit {0}) (Unit {0})
inputs_of matches = record {
  exception_fp = 99;
  hash_matches = matches;
  query_status_codes = statuses;
  query_msg_tokens = tokens;
  kb_candidates = [];
  seed = none;
  stage_c = [];
  stage_c_ages_days = [];
  feature_ctx = tt;
  gbm_predict = none;
}

abbrev no_columns : FeatureContext ℕ (Unit {0}) → Unit {0}
no_columns ctx = tt

abbrev plain : Features ℕ (Unit {0})
plain = record {
  status_codes_present = 0;
  identifiers_present = 0;
  status_codes_match_top1 = 0;
  ident_jaccard_source = 0;
  identifier_jaccard_top1 = 0;
  hash_gate_blocked = 0;
  others = tt;
}

abbrev distribution : List (Label × ℕ)
distribution = (ab, 2000) ∷ (pb, 7000) ∷ (si, 1000) ∷ []

abbrev decided_pb : DecisionResult ℕ (Unit {0})
decided_pb = record {
  label = pb;
  issue_type = codes "pb001";
  confidence = 8000;
  method = method_gbm;
  action = auto;
  abstain_reason = none;
  relevant_item_id = none;
  matched_mode_id = none;
  features = plain;
  probs = distribution;
  model_version = none;
  stage_c = [];
  relevant_label_source = none;
  relevant_is_auto_analyzed = false;
  calibrated_max_prob = some 6000;
}

stage_a_inherit-IsInheritable_example :
    IsInheritable 99 two_matches statuses tokens 30 (match (codes "500") 20)
unfolding stage_a_inherit identifier_jaccard newest_from base_label
stage_a_inherit-IsInheritable_example =
    stage_a_inherit-IsInheritable 99 two_matches statuses tokens 30 (match (codes "500") 20) refl

decide-IsJustified_example :
    IsJustified (inputs_of two_matches) (snapshot no_columns (inputs_of two_matches)) 30 7500
unfolding decide result stage_a_inherit identifier_jaccard newest_from base_label
decide-IsJustified_example = decide-IsJustified no_columns (inputs_of two_matches) 30 7500 refl refl

decide-blocked_example : (decide no_columns (inputs_of strangers) 30 7500).method ≢ method_hash
unfolding discriminant_gate_blocked
decide-blocked_example = decide-blocked no_columns (inputs_of strangers) 30 7500 refl

gbm_bands_example :
    (((decided prediction [] plain tokens 7500).action ≡ auto)
      ↔ ((leb 7500 (clamp01 8000) ≡ true) × (gbm_label (codes "si") ≢ ti)))
    × (((decided prediction [] plain tokens 7500).action ≡ abstain)
        ↔ ((decided prediction [] plain tokens 7500).label ≡ ti))
gbm_bands_example = gbm_bands prediction [] plain tokens 7500 refl

best_kb_match-IsGreatest_example :
    ((q : Pair ℕ)
      → best_kb_match modes ≡ some q
      → In q.1 modes
        × (q.0 ≡ score_kb_candidate q.1)
        × ((c : Candidate ℕ) (m : ℕ)
            → In c modes
            → c.mode_id ≡ some m
            → IsAtLeast q.0 (score_kb_candidate c)))
    × (best_kb_match modes ≡ none → (c : Candidate ℕ) (m : ℕ) → In c modes → c.mode_id ≢ some m)
best_kb_match-IsGreatest_example = best_kb_match-IsGreatest modes

finds_best : best_kb_match modes ≡ some (score_kb_candidate (candidate 2 9000), candidate 2 9000)
unfolding best_kb_match
finds_best = refl
