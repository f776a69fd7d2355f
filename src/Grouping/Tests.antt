-- ===== src/Grouping/Tests.antt =====
-- Vectors of one number.
use reportportal_analyzer_ng.Prelude.{
  ◌==◌, if◌then◌else◌, All, ℕ, ◌≡◌, refl, true, none, List, [], ◌∷◌, map,
}
use reportportal_analyzer_ng.Floats.{fixed_point}
use reportportal_analyzer_ng.Grouping.{Numpy, GroupItem, group_launch}
use reportportal_analyzer_ng.Grouping.Partition.{placed, placed-group_launch}
use reportportal_analyzer_ng.Grouping.Led.{IsLed, group_launch-IsLed}

abbrev np : Numpy ℕ ℕ
np = record {
  norm = λ v. 10000;
  divide = λ v x. v;
  mean = λ vs. 1;
  times = λ v n. v;
  plus = λ v w. v;
  dot = λ v w. if v == w then 10000 else 0;
}

abbrev item : ℕ → ℕ → GroupItem ℕ
item i fp = record {
  item_id = i;
  exception_fp = fp;
  error_hash = fp;
  emb = none;
  has_stacktrace = i == 3;
  log_count = 1;
  template_ids = [];
}

abbrev items : List (GroupItem ℕ)
items = item 2 9 ∷ item 3 9 ∷ item 1 0 ∷ []

groups_by_fingerprint :
    map (λ g. map (λ m. m.item_id) g.members) (group_launch np 3000 (λ h. true) items)
    ≡ (2 ∷ 3 ∷ []) ∷ (1 ∷ []) ∷ []
unfolding group_launch
groups_by_fingerprint = refl

placed-group_launch_example :
    placed (λ i. i.item_id == 3) (group_launch np 3000 (λ h. true) items) ≡ 1
placed-group_launch_example = placed-group_launch (λ i. i.item_id == 3) np 3000 (λ h. true) items

group_launch-IsLed_example : All (IsLed 3000 (λ h. true) 3) (group_launch np 3000 (λ h. true) items)
group_launch-IsLed_example = group_launch-IsLed np 3000 (λ h. true) items
