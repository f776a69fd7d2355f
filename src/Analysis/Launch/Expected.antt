-- ===== src/Analysis/Launch/Expected.antt =====
-- What the analysis of a launch should answer and write, for its groups.
use std.Path.{fun_ext}
use reportportal_analyzer_ng.Prelude.{
  ◌==◌, if◌then◌else◌, true, not, ◌&&◌, keep, ℕ, ◌≡◌, refl, Bool, false, Option, none, some, List,
  [], ◌∷◌, ◌++◌, map,
}
use reportportal_analyzer_ng.Floats.{Floats}
use reportportal_analyzer_ng.Text.{same_set, split}
use reportportal_analyzer_ng.Decision.Types.{
  Label, pb, ab, si, nd, ti, unknown, same_label, Action, auto, suggest, abstain, get_or,
  DecisionResult,
}
use reportportal_analyzer_ng.Grouping.{GroupItem, LaunchGroup}
use reportportal_analyzer_ng.Analysis.Evidence.{decide_item}
use reportportal_analyzer_ng.Analysis.Effects.{
  SuggestionIn, is_auto, AnalysisResult, suggestion_of, result_of,
}
use reportportal_analyzer_ng.Analysis.Launch.{Signature, LaunchContext, labels, member_decision}

-- an automatic decision for a group other than `ti`
abbrev pub is_final : Action → Label → Bool
is_final auto ti = false
is_final auto _ = true
is_final _ _ = false

pub is_final_lem : (a : Action) (l : Label) → (is_auto a && not (same_label l ti)) ≡ is_final a l
is_final_lem suggest l = refl
is_final_lem abstain l = refl
is_final_lem auto pb = refl
is_final_lem auto ab = refl
is_final_lem auto si = refl
is_final_lem auto nd = refl
is_final_lem auto ti = refl
is_final_lem auto unknown = refl

module _ {F C : Type 0} where
  abbrev pub is_answer : DecisionResult F C → Bool
  is_answer d = is_final d.action d.label

  pub labels-is_answer : labels {F = F} {C = C} ≡ is_answer
  labels-is_answer = fun_ext (λ d. is_final_lem d.action d.label)

module _ {F V B C : Type 0} ⦃fl : Floats F⦄ (ctx : LaunchContext F V B C) where
  -- equal error hashes, and equal sets of status codes and of message tokens
  abbrev pub is_alike : Signature → Signature → Bool
  is_alike a b =
      a.error_hash == b.error_hash
      && same_set a.status_codes b.status_codes
      && same_set (split a.msg_text) (split b.msg_text)

  -- the stored signature of an item, or else the recomputed one
  abbrev pub signature_of : ℕ → Signature
  signature_of item_id = get_or (ctx.stored item_id) (ctx.recomputed item_id)

  abbrev pub own_decision : LaunchGroup F V → ℕ → DecisionResult F C
  own_decision g item_id =
      (decide_item ctx.other_columns ctx.request ctx.auto_min_prob (ctx.evidence g item_id)).0

  -- decided for the representative where the member cannot be told from it, for itself elsewhere
  abbrev pub expected : LaunchGroup F V → GroupItem V → GroupItem V → DecisionResult F C
  expected g rep item =
      if is_alike (signature_of item.item_id) (signature_of rep.item_id)
      then own_decision g rep.item_id
      else own_decision g item.item_id

  abbrev pub by_code : LaunchGroup F V → GroupItem V → GroupItem V → DecisionResult F C
  by_code g rep item = (member_decision ctx g rep item).0

  pub by_code_lem :
      (g : LaunchGroup F V) (rep item : GroupItem V) → by_code g rep item ≡ expected g rep item
  unfolding member_decision
  by_code_lem g rep item = pushed (is_alike (signature_of item.item_id) (signature_of rep.item_id))
    where
      pushed :
          (b : Bool)
          → own_decision g (if b then rep.item_id else item.item_id)
            ≡ (if b then own_decision g rep.item_id else own_decision g item.item_id)
      pushed true = refl
      pushed false = refl

  pub by_code-expected : by_code ≡ expected
  by_code-expected = fun_ext (λ g. fun_ext (λ rep. fun_ext (λ item. by_code_lem g rep item)))

  -- the suggestion rows and the answers of the groups, for a decision of each member
  abbrev pub Decisions : Type 0
  Decisions = LaunchGroup F V → GroupItem V → GroupItem V → DecisionResult F C

  abbrev pub row_by : Decisions → LaunchGroup F V → GroupItem V → GroupItem V → SuggestionIn F C
  row_by dec g rep item = suggestion_of item.item_id (some (ctx.group_id g)) false (dec g rep item)

  abbrev pub rows_first :
      Decisions → LaunchGroup F V → Option (GroupItem V) → List (SuggestionIn F C)
  rows_first dec g none = []
  rows_first dec g (some rep) = map (row_by dec g rep) g.members

  abbrev pub rows_by : Decisions → List (LaunchGroup F V) → List (SuggestionIn F C)
  rows_by dec [] = []
  rows_by dec (g ∷ gs) = rows_first dec g g.representative ++ rows_by dec gs

  abbrev pub answers_first :
      Decisions
      → (DecisionResult F C → Bool)
      → LaunchGroup F V
      → Option (GroupItem V)
      → List AnalysisResult
  answers_first dec test g none = []
  answers_first dec test g (some rep) =
      map (λ m. result_of m.item_id (dec g rep m)) (keep (λ m. test (dec g rep m)) g.members)

  abbrev pub answers_by :
      Decisions → (DecisionResult F C → Bool) → List (LaunchGroup F V) → List AnalysisResult
  answers_by dec test [] = []
  answers_by dec test (g ∷ gs) = answers_first dec test g g.representative ++ answers_by dec test gs
