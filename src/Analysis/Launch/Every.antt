-- ===== src/Analysis/Launch/Every.antt =====
-- Every failure of a launch gets its row.
use reportportal_analyzer_ng.Prelude.{
  ◌==◌, length, keep, length-append, All, keep-append, ℕ, ◌≡◌, refl, ap, ◌∙◌, Bool, Option, none,
  some, List, [], ◌∷◌, map, arith,
}
use reportportal_analyzer_ng.Floats.{Floats}
use reportportal_analyzer_ng.Grouping.{Numpy, GroupItem, LaunchGroup, group_launch}
use reportportal_analyzer_ng.Grouping.Partition.{count, placed, placed-group_launch}
use reportportal_analyzer_ng.Grouping.Led.{group_launch-IsLed}
use reportportal_analyzer_ng.Analysis.Effects.{SuggestionIn, Effect, AnalysisResult}
use reportportal_analyzer_ng.Analysis.Effects.Written.{rows_written}
use reportportal_analyzer_ng.Analysis.Launch.{LaunchContext, analyze_launch}
use reportportal_analyzer_ng.Analysis.Launch.Expected.{row_by, rows_first, rows_by, expected}
use reportportal_analyzer_ng.Analysis.Launch.FanOut.{HasRep, has_rep, analyze_launch_lem}

abbrev pub is_item : {V : Type 0} → ℕ → GroupItem V → Bool
is_item i m = m.item_id == i

module _ {F C : Type 0} where
  -- how many rows are about an item
  abbrev pub rows_about : ℕ → List (SuggestionIn F C) → ℕ
  rows_about i rows = length (keep (λ row. row.item_id == i) rows)

module _ {F V B C : Type 0} ⦃fl : Floats F⦄ (ctx : LaunchContext F V B C) (i : ℕ) where
  rows_about-members :
      (g : LaunchGroup F V) (rep : GroupItem V) (members : List (GroupItem V))
      → rows_about i (map (row_by ctx (expected ctx) g rep) members) ≡ count (is_item i) members
  rows_about-members g rep [] = refl
  rows_about-members g rep (m ∷ ms) = ground (arith, rows_about-members g rep ms)

  rows_about-group :
      (g : LaunchGroup F V) (o : Option (GroupItem V))
      → (rep : GroupItem V) × (o ≡ some rep)
      → rows_about i (rows_first ctx (expected ctx) g o) ≡ count (is_item i) g.members
  rows_about-group g none h = let (rep, e) = h in cc
  rows_about-group g (some rep) h = rows_about-members g rep g.members

  rows_about-groups :
      (gs : List (LaunchGroup F V))
      → All (HasRep ctx) gs
      → rows_about i (rows_by ctx (expected ctx) gs) ≡ placed (is_item i) gs
  rows_about-groups [] a = refl
  rows_about-groups (g ∷ gs) a =
      ap length (
        keep-append (λ row. row.item_id == i) (rows_first ctx (expected ctx) g g.representative)
          (rows_by ctx (expected ctx) gs))
      ∙ omega (
        arith,
        length-append
            (keep (λ row. row.item_id == i) (rows_first ctx (expected ctx) g g.representative))
            (keep (λ row. row.item_id == i) (rows_by ctx (expected ctx) gs)),
        rows_about-group g g.representative a.0,
        rows_about-groups gs a.1,
      )

  -- However a launch is grouped, its analysis writes exactly one suggestion row for each of its
  -- failures: about any item there are as many rows as the launch has failures of that item.
  pub analyze_launch-every :
      (np : Numpy F V) (burst_x : F) (is_new : ℕ → Bool) (items : List (GroupItem V))
      → (out : List (Effect F C) × List AnalysisResult) × (analyze_launch np burst_x is_new ctx
            items
          ≡ some out)
        × (rows_about i (rows_written out.0) ≡ count (is_item i) items)
  analyze_launch-every np burst_x is_new items =
      let groups = group_launch np burst_x is_new items in
      let (out, e, gives) = analyze_launch_lem ctx np burst_x is_new items in
      let led =
        has_rep ctx burst_x is_new (length items) groups
          (group_launch-IsLed np burst_x is_new items) in
      (
        out,
        e,
        ap (rows_about i) gives.0
            ∙ rows_about-groups groups led
            ∙ placed-group_launch (is_item i) np burst_x is_new items,
      )
