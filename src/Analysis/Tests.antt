-- ===== src/Analysis/Tests.antt =====
-- A failure with two labelled rows of its hash in the scope, alone and in a launch of three, of which
-- one has another status code.
use reportportal_analyzer_ng.Prelude.{
  In, ◌≢◌, ◌⊎◌, ◌==◌, if◌then◌else◌, length, All, ℕ, ◌/◌, ◌≤◌, ◌≡◌, refl, ◌⊎◌, true, false, Option,
  none, some, List, [], ◌∷◌,
}
use reportportal_analyzer_ng.Floats.{fixed_point}
use reportportal_analyzer_ng.Text.{codes, split, strip}
use reportportal_analyzer_ng.Grouping.{Numpy, GroupItem, group_launch}
use reportportal_analyzer_ng.Decision.Types.{human, FeatureContext, DecisionResult, base_label}
use reportportal_analyzer_ng.Scope.{in_analyze_scope}
use reportportal_analyzer_ng.Decision.Similarity.{frozenset, identifier_jaccard}
use reportportal_analyzer_ng.Decision.Inherit.{newest_from, stage_a_inherit}
use reportportal_analyzer_ng.Decision.Gbm.{result}
use reportportal_analyzer_ng.Decision.Decide.{decide}
use reportportal_analyzer_ng.Analysis.Evidence.{
  Route, analyze_route, analyze_item_early_route, HashRow, ModeMatch, Evidence, Request,
  is_eligible, decide_item,
}
use reportportal_analyzer_ng.Analysis.Evidence.InScope.{
  EligibleRow, EligibleCandidate, decide_item_in_scope,
}
use reportportal_analyzer_ng.Analysis.Effects.{Effect, AnalysisResult}
use reportportal_analyzer_ng.Analysis.Effects.Written.{answers, labels_written, rows_written}
use reportportal_analyzer_ng.Analysis.Launch.{LaunchContext, analyze_launch}
use reportportal_analyzer_ng.Analysis.Launch.Every.{rows_about, analyze_launch-every}
use reportportal_analyzer_ng.Analysis.Launch.Expected.{rows_by, expected, is_answer, answers_by}
use reportportal_analyzer_ng.Analysis.Launch.FanOut.{analyze_launch_lem}
use reportportal_analyzer_ng.Analysis.Early.{
  EarlySettings, EarlyItem, kb_inherit_only, kb_inherit_and_pb, early_applies, analyze_item_early,
}
use reportportal_analyzer_ng.Analysis.Early.Policy.{Earned, analyze_item_early-Earned}
use reportportal_analyzer_ng.Analysis.Suggest.{SuggestSettings}
use reportportal_analyzer_ng.Analysis.Suggest.Render.{render_suggestions}
use reportportal_analyzer_ng.Analysis.Suggest.Floor.{IsFloored, render_suggestions-IsFloored}
use reportportal_analyzer_ng.Analysis.Suggest.Reply.{render_suggestions_lem}

abbrev row : ℕ → HashRow
row i = record {
  item_id = i;
  launch_id = 5;
  launch_name = some (codes "nightly");
  issue_type = codes "pb001";
  issue_type_group = some (codes "pb");
  label_source = some human;
  label_ts = some 10;
  is_auto_analyzed = false;
  status_codes = [];
  msg_text = some (codes "com.example.Foo failed");
}

abbrev evidence : ℕ → Evidence ℕ (Unit {0}) (Unit {0})
evidence i = record {
  item_id = i;
  exception_fp = 99;
  status_codes = [];
  msg_text = codes "com.example.Foo failed";
  hash_rows = row 11 ∷ row 12 ∷ [];
  kb_candidates = [];
  seed = none;
  seed_mode_id = none;
  found = [];
  names = λ i. [];
  feature_ctx = tt;
  predictor = none;
}

abbrev request : Route → Request
request route = record {
  route = route;
  analyzer_mode = some (codes "ALL");
  scope_query = record { launch_id = 7; launch_name = codes "nightly"; previous_launch_id = 6 };
  now = 30;
}

abbrev no_columns : FeatureContext ℕ (Unit {0}) → Unit {0}
no_columns ctx = tt

abbrev decision : ℕ → DecisionResult ℕ (Unit {0}) × Option (ModeMatch ℕ)
decision i = decide_item no_columns (request analyze_route) 9000 (evidence i)

decide_item_in_scope_example :
    EligibleRow (request analyze_route) 1 (evidence 1).hash_rows 11
    ⊎ EligibleCandidate (request analyze_route) (evidence 1).names (evidence 1).found 11
unfolding decide_item decide result stage_a_inherit is_eligible in_analyze_scope strip
    identifier_jaccard frozenset split newest_from base_label
decide_item_in_scope_example =
    decide_item_in_scope no_columns (request analyze_route) 9000 (evidence 1) 11 refl

abbrev settings : EarlySettings ℕ
settings = record {
  early_item_analysis = true;
  early_label_policy = kb_inherit_only;
  early_gbm_pb_min = 8500;
  llm_on = true;
  judge_tau = 9000;
}

abbrev early_items : List (EarlyItem ℕ (Unit {0}) (Unit {0}))
early_items = record { signature_text = codes "Foo"; evidence = evidence 1 } ∷ []

abbrev early_answer : AnalysisResult
early_answer = record { item_id = 1; issue_type = codes "pb001"; relevant_item = 11 }

early_answers :
    (analyze_item_early settings no_columns (request analyze_item_early_route) 9000 early_items).1
    ≡ early_answer ∷ []
unfolding analyze_item_early early_applies decide_item decide result stage_a_inherit is_eligible
    in_analyze_scope strip identifier_jaccard frozenset split newest_from base_label
early_answers = refl

analyze_item_early-Earned_example :
    let out =
      analyze_item_early settings no_columns (request analyze_item_early_route) 9000 early_items in
    (labels_written out.0 ≡ answers out.1)
    × ((res : AnalysisResult)
        → In res out.1
        → (true ≡ true)
          × Earned settings no_columns (request analyze_item_early_route) 9000 early_items res)
    × ((true ≡ false)
          ⊎ ((settings.early_label_policy ≢ kb_inherit_only)
              × (settings.early_label_policy ≢ kb_inherit_and_pb))
        → labels_written out.0 ≡ [])
analyze_item_early-Earned_example =
    analyze_item_early-Earned settings no_columns (request analyze_item_early_route) 9000
      early_items

abbrev np : Numpy ℕ ℕ
np = record {
  norm = λ v. 10000;
  divide = λ v x. v;
  mean = λ vs. 1;
  times = λ v n. v;
  plus = λ v w. v;
  dot = λ v w. 0;
}

abbrev item : ℕ → GroupItem ℕ
item i = record {
  item_id = i;
  exception_fp = 99;
  error_hash = 99;
  emb = none;
  has_stacktrace = true;
  log_count = 1;
  template_ids = [];
}

abbrev launch : LaunchContext ℕ ℕ (Unit {0}) (Unit {0})
launch = record {
  stored = λ i. none;
  recomputed = λ i. record {
    error_hash = 99;
    status_codes = if i == 3 then codes "500" ∷ [] else [];
    msg_text = codes "com.example.Foo failed";
  };
  evidence = λ g i. evidence i;
  group_id = λ g. 4;
  other_columns = no_columns;
  request = request analyze_route;
  auto_min_prob = 9000;
  llm_on = false;
  judge_tau = 9000;
}

abbrev members : List (GroupItem ℕ)
members = item 1 ∷ item 2 ∷ item 3 ∷ []

analyze_launch_lem_example :
    let groups = group_launch np 3000 (λ h. true) members in
    (out : List (Effect ℕ (Unit {0})) × List AnalysisResult) × (analyze_launch np 3000
        (λ h. true)
        launch
        members
      ≡ some out)
    × ((rows_written out.0 ≡ rows_by launch (expected launch) groups)
        × (out.1 ≡ answers_by launch (expected launch) is_answer groups)
        × (labels_written out.0 ≡ answers (answers_by launch (expected launch) is_answer groups)))
analyze_launch_lem_example = analyze_launch_lem launch np 3000 (λ h. true) members

abbrev dock : SuggestSettings
dock = record { suggest_max = 3; suggest_below_enabled = true; suggest_below_max = 2 }

render_suggestions_lem_example :
    length (render_suggestions dock (λ x. x / 100) (decision 1).0 none) ≤ 6
render_suggestions_lem_example = (render_suggestions_lem dock (λ x. x / 100) (decision 1).0 none).1

one_row : length (render_suggestions dock (λ x. x / 100) (decision 1).0 (some 11)) ≡ 1
unfolding render_suggestions decide_item decide result stage_a_inherit is_eligible in_analyze_scope
    strip identifier_jaccard frozenset split newest_from base_label
one_row = refl

render_suggestions-IsFloored_example :
    All (IsFloored dock (λ x. x / 100)) (render_suggestions dock (λ x. x / 100) (decision 1).0 none)
render_suggestions-IsFloored_example =
    render_suggestions-IsFloored dock (λ x. x / 100) (decision 1).0 none refl

analyze_launch-every_example :
    (out : List (Effect ℕ (Unit {0})) × List AnalysisResult) × (analyze_launch np 3000
        (λ h. true)
        launch
        members
      ≡ some out)
    × (rows_about 3 (rows_written out.0) ≡ 1)
analyze_launch-every_example = analyze_launch-every launch 3 np 3000 (λ h. true) members
