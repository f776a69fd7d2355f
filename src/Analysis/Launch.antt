-- ===== src/Analysis/Launch.antt =====
-- `_analyze_launch` of src/analyzer_ng/core/analysis.py: each group's representative is decided, and the
-- decision fans out to the members that cannot be told from it; every other member is decided on its
-- own. The signatures and the evidence, which the stores and the pipeline give, are arguments.
pub mod Expected
pub mod FanOut
pub mod Every
use reportportal_analyzer_ng.Prelude.{
  ◌==◌, if◌then◌else◌, length, keep, ℕ, Bool, false, not, ◌&&◌, Option, none, some, List, [], ◌∷◌,
  ◌++◌, map,
}
use reportportal_analyzer_ng.Floats.{Floats, lt, fzero}
use reportportal_analyzer_ng.Text.{Text, member, same_set, split}
use reportportal_analyzer_ng.Decision.Types.{ti, same_label, FeatureContext, DecisionResult, get_or}
use reportportal_analyzer_ng.Grouping.{Numpy, GroupItem, LaunchGroup, fingerprint, group_launch}
use reportportal_analyzer_ng.Analysis.Evidence.{ModeMatch, Evidence, Request, decide_item}
use reportportal_analyzer_ng.Analysis.Effects.{
  Effect, write_suggestion, upsert_launch_group, AnalysisResult, is_auto, suggestion_of,
  record_membership, applied, enqueue_llm,
}

pub record Signature : Type 0 where
  pub error_hash : ℕ
  pub status_codes : List Text
  pub msg_text : Text

-- what a launch's analysis reads: the stored and the recomputed signature of an item, the evidence for
-- an item as a member of a group, and the id that the store gives a group
pub record LaunchContext (F V B C : Type 0) : Type 0 where
  pub stored : ℕ → Option Signature
  pub recomputed : ℕ → Signature
  pub evidence : LaunchGroup F V → ℕ → Evidence F B C
  pub group_id : LaunchGroup F V → ℕ
  pub other_columns : FeatureContext F B → C
  pub request : Request
  pub auto_min_prob : F
  pub llm_on : Bool
  pub judge_tau : F

abbrev pub same_discriminant : Signature → Signature → Bool
same_discriminant a b =
    a.error_hash == b.error_hash
    && same_set a.status_codes b.status_codes
    && same_set (split a.msg_text) (split b.msg_text)

module _ {F C : Type 0} where
  -- the test before a label is written
  abbrev pub labels : DecisionResult F C → Bool
  labels d = is_auto d.action && not (same_label d.label ti)

module _ {F C : Type 0} ⦃fl : Floats F⦄ where
  abbrev pub joined :
      List (Effect F C) × List AnalysisResult
      → Option (List (Effect F C) × List AnalysisResult)
      → Option (List (Effect F C) × List AnalysisResult)
  joined a none = none
  joined a (some later) = some (a.0 ++ later.0, a.1 ++ later.1)

module _ {F V B C : Type 0} ⦃fl : Floats F⦄ where
  abbrev pub canonical : LaunchContext F V B C → ℕ → Signature
  canonical ctx item_id = get_or (ctx.stored item_id) (ctx.recomputed item_id)

  abbrev pub decided_as :
      LaunchContext F V B C → LaunchGroup F V → ℕ → DecisionResult F C × Option (ModeMatch F)
  decided_as ctx group item_id =
      decide_item ctx.other_columns ctx.request ctx.auto_min_prob (ctx.evidence group item_id)

  abbrev pub is_same_as : LaunchContext F V B C → GroupItem V → GroupItem V → Bool
  is_same_as ctx rep member =
      same_discriminant (canonical ctx member.item_id) (canonical ctx rep.item_id)

  -- the decision of a member: the representative's, or its own
  unfoldable pub member_decision :
      LaunchContext F V B C
      → LaunchGroup F V
      → GroupItem V
      → GroupItem V
      → DecisionResult F C × Option (ModeMatch F)
  member_decision ctx group rep member =
      decided_as ctx group (if is_same_as ctx rep member then rep.item_id else member.item_id)

  abbrev own_membership :
      LaunchContext F V B C → GroupItem V → GroupItem V → Option (ModeMatch F) → List (Effect F C)
  own_membership ctx rep member m =
      if is_same_as ctx rep member then [] else record_membership (member.item_id ∷ []) m

  abbrev pub analyze_member :
      LaunchContext F V B C
      → LaunchGroup F V
      → GroupItem V
      → GroupItem V
      → List (Effect F C) × List AnalysisResult
  analyze_member ctx group rep member =
      let (d, m) = member_decision ctx group rep member in
      let (labelled, results) = applied (labels d) member.item_id d in
      (
        own_membership ctx rep member m
            ++ (write_suggestion (suggestion_of member.item_id (some (ctx.group_id group)) false d)
                ∷ (enqueue_llm ctx.llm_on ctx.judge_tau member.item_id d none ++ labelled)),
        results,
      )

  pub analyze_members :
      LaunchContext F V B C
      → LaunchGroup F V
      → GroupItem V
      → List (GroupItem V)
      → List (Effect F C) × List AnalysisResult
  unfolding member_decision
  analyze_members ctx group rep [] = ([], [])
  analyze_members ctx group rep (member ∷ members) =
      let (effects, results) = analyze_member ctx group rep member in
      let (later, later_results) = analyze_members ctx group rep members in
      (effects ++ later, results ++ later_results)

  abbrev inherit_ids : LaunchContext F V B C → GroupItem V → List (GroupItem V) → List ℕ
  inherit_ids ctx rep members = map (λ m. m.item_id) (keep (is_same_as ctx rep) members)

  pub analyze_group :
      LaunchContext F V B C
      → LaunchGroup F V
      → GroupItem V
      → List (Effect F C) × List AnalysisResult
  unfolding analyze_members
  analyze_group ctx group rep =
      let (effects, results) = analyze_members ctx group rep group.members in
      (
        upsert_launch_group (fingerprint group.representative) (length group.members) group.si_prior
              (lt fzero group.si_prior)
            ∷ (effects
                ++ record_membership (inherit_ids ctx rep group.members)
                    (decided_as ctx group rep.item_id).1),
        results,
      )

  -- a group without a representative fails the assertion
  abbrev pub analyze_next :
      LaunchContext F V B C
      → LaunchGroup F V
      → Option (GroupItem V)
      → Option (List (Effect F C) × List AnalysisResult)
      → Option (List (Effect F C) × List AnalysisResult)
  analyze_next ctx group none later = none
  analyze_next ctx group (some rep) later = joined (analyze_group ctx group rep) later

  pub analyze_groups :
      LaunchContext F V B C
      → List (LaunchGroup F V)
      → Option (List (Effect F C) × List AnalysisResult)
  unfolding analyze_group
  analyze_groups ctx [] = some ([], [])
  analyze_groups ctx (g ∷ gs) = analyze_next ctx g g.representative (analyze_groups ctx gs)

  unfoldable pub analyze_launch :
      Numpy F V
      → F
      → (ℕ → Bool)
      → LaunchContext F V B C
      → List (GroupItem V)
      → Option (List (Effect F C) × List AnalysisResult)
  unfolding analyze_groups
  analyze_launch np burst_x is_new ctx items =
      analyze_groups ctx (group_launch np burst_x is_new items)
