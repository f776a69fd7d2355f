-- ===== src/Scope/Tests.antt =====
-- A labelled row of another launch with the same name.
use reportportal_analyzer_ng.Prelude.{◌≡◌, refl, ◌≢◌, ◌↔◌, true, none, some}
use reportportal_analyzer_ng.Text.{codes, strip}
use reportportal_analyzer_ng.Scope.{ScopeQuery, ScopeCandidate, in_analyze_scope}
use reportportal_analyzer_ng.Scope.Table.{Admits, IsEligible, in_analyze_scope_lem}

abbrev query : ScopeQuery
query = record { launch_id = 7; launch_name = codes "nightly"; previous_launch_id = 6 }

abbrev row : ScopeCandidate
row = record {
  launch_id = 5;
  launch_name = codes "nightly";
  issue_type_group = some (codes "pb");
  is_labeled = true;
}

in_analyze_scope_lem_example :
    Admits (codes "ALL") query row ↔ (IsEligible row × (row.launch_id ≢ query.launch_id))
in_analyze_scope_lem_example = let (a, b, c, d, e, f, g) = in_analyze_scope_lem none query row in d

admits_the_name : in_analyze_scope (some (codes " launch_name ")) query row ≡ true
unfolding in_analyze_scope strip
admits_the_name = refl
