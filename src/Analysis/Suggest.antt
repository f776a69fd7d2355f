-- ===== src/Analysis/Suggest.antt =====
-- The reply of `suggest` in src/analyzer_ng/core/analysis.py: its candidates, the verdict of the judge,
-- the rows of the reply and the hypothesis of the rubric. The texts of `modelInfo` are left out but for
-- their tokens `band`, `src`, `conf`, `plabel` and the narration of a decline; `percent` is
-- `round(x * 100, 2)`. The counts of the settings are not negative.
pub mod Render
pub mod Rows
pub mod Reply
pub mod Floor
use reportportal_analyzer_ng.Prelude.{
  ◌==◌, if◌then◌else◌, any, ℕ, ◌*◌, Bool, true, false, not, ◌&&◌, Option, none, some, List, [], ◌∷◌,
  ◌++◌,
}
use reportportal_analyzer_ng.Floats.{Floats, lt, fmin, fzero, fone}
use reportportal_analyzer_ng.Text.{Text}
use reportportal_analyzer_ng.Decision.Types.{
  Label, unknown, same_label, LabelSource, rp, human, ai_suggested, seed_source, Method, method_kb,
  AbstainReason, gbm_below_suggest, Candidate, get_or, base_label,
}
use reportportal_analyzer_ng.Decision.Gbm.{truthy?, tau_suggest, result}
use reportportal_analyzer_ng.Decision.Probability.{top_entry}
use reportportal_analyzer_ng.Analysis.Effects.{judge}

pub data Provenance : Type 0 where
  auto_analyzed human_confirmed seed_catalog kb_mode unlabeled : Provenance

pub data Band : Type 0 where
  band_auto band_suggest band_below_suggest : Band

pub record Shown (F : Type 0) : Type 0 where
  pub issue_type : Text
  pub item_id : ℕ
  pub score : F
  pub es_score : F
  pub provenance : Provenance

pub record SuggestRow (F : Type 0) : Type 0 where
  pub issue_type : Text
  pub relevant_item : ℕ
  pub match_score : F
  pub position : ℕ
  pub es_score : F
  pub band : Option Band
  pub provenance : Provenance
  pub conf : Option F
  pub plabel : Option F
  pub narrates : Bool
  pub is_auto_method : Bool

pub record SuggestSettings : Type 0 where
  pub suggest_max : ℕ
  pub suggest_below_enabled : Bool
  pub suggest_below_max : ℕ

abbrev pub provenance_of : Option LabelSource → Bool → Provenance
provenance_of (some ai_suggested) is_auto_analyzed = auto_analyzed
provenance_of _ true = auto_analyzed
provenance_of (some rp) false = human_confirmed
provenance_of (some human) false = human_confirmed
provenance_of (some seed_source) false = seed_catalog
provenance_of none false = unlabeled

abbrev pub is_unlabeled : Provenance → Bool
is_unlabeled unlabeled = true
is_unlabeled _ = false

abbrev pub is_kb_method : Method → Bool
is_kb_method method_kb = true
is_kb_method _ = false

abbrev pub suggest_below_max_cap : ℕ
suggest_below_max_cap = 3

abbrev pub is_gbm_below_suggest : Option AbstainReason → Bool
is_gbm_below_suggest (some gbm_below_suggest) = true
is_gbm_below_suggest _ = false

abbrev pub has_reason : Option AbstainReason → Bool
has_reason none = false
has_reason (some reason) = true

abbrev pub has_item_id : ℕ → Option ℕ → Bool
has_item_id i none = false
has_item_id i (some j) = i == j

abbrev pub known_label : Label → Bool
known_label unknown = false
known_label _ = true

module _ {F : Type 0} where
  abbrev pub shows : ℕ → Shown F → Bool
  shows i s = i == s.item_id

  abbrev pub before :
      Shown F → Option (Shown F × List (Shown F)) → Option (Shown F × List (Shown F))
  before s none = none
  before s (some (t, ts)) = some (t, s ∷ ts)

  -- the first that shows the item, and the others
  pub extract : ℕ → List (Shown F) → Option (Shown F × List (Shown F))
  extract i [] = none
  extract i (s ∷ ss) =
      let later = before s (extract i ss) in if shows i s then some (s, ss) else later

  abbrev pub moved_first : List (Shown F) → Option (Shown F × List (Shown F)) → List (Shown F)
  moved_first ss none = ss
  moved_first ss (some (s, rest)) = s ∷ rest

  -- the item that the judge chose, where there is a verdict that names one
  unfoldable pub reorder_for_judge : List (Shown F) → Option ℕ → Bool → List (Shown F)
  unfolding extract
  reorder_for_judge candidates verdict true = candidates
  reorder_for_judge candidates none false = candidates
  reorder_for_judge candidates (some chosen) false =
      moved_first candidates (extract chosen candidates)

module _ {F : Type 0} ⦃fl : Floats F⦄ where
  abbrev pub suggest_below_floor : F
  suggest_below_floor = fl.ratio 30 100

  abbrev pub capped : Shown F → F
  capped s = fmin fone s.score

  abbrev pub cosine_of : Candidate F → F
  cosine_of c = fmin fone (get_or c.cosine fzero)

  abbrev pub add_shown : List (Shown F) → Candidate F → Option ℕ → Option Text → List (Shown F)
  add_shown result c (some i) (some t) =
      if any (shows i) result
      then result
      else result
        ++ record {
          issue_type = t;
          item_id = i;
          score = cosine_of c;
          es_score = c.rrf_score;
          provenance = provenance_of c.label_source false;
        }
          ∷ []
  add_shown result c _ _ = result

  pub add_candidates : List (Shown F) → List (Candidate F) → List (Shown F)
  add_candidates result [] = result
  add_candidates result (c ∷ cs) = add_candidates (add_shown result c c.item_id c.issue_type) cs

  abbrev pub argmax : List (Label × F) → Option Label
  argmax [] = none
  argmax (p ∷ ps) = some (top_entry p ps).0

  -- the first candidate of the group that is not shown yet
  abbrev pub declined_row :
      List (Shown F) → F → Label → Candidate F → Option ℕ → Option Text → Option (Shown F)
  declined_row used confidence group c (some i) (some t) =
      if not (any (shows i) used) && same_label (base_label t) group
      then some (record {
        issue_type = t;
        item_id = i;
        score = confidence;
        es_score = c.rrf_score;
        provenance = provenance_of c.label_source false;
      })
      else none
  declined_row used confidence group c _ _ = none

  abbrev pub first_some : Option (Shown F) → Option (Shown F) → Option (Shown F)
  first_some none later = later
  first_some (some s) later = some s

  pub first_declined : List (Shown F) → F → Label → List (Candidate F) → Option (Shown F)
  first_declined used confidence group [] = none
  first_declined used confidence group (c ∷ cs) =
      first_some (declined_row used confidence group c c.item_id (truthy? c.issue_type))
        (first_declined used confidence group cs)

  abbrev pub listed : Option (Shown F) → List (Shown F)
  listed none = []
  listed (some s) = s ∷ []

  abbrev pub reaches : F → Shown F → Bool
  reaches bar s = fl.le bar (capped s)

  -- a candidate under the bar of a suggestion
  abbrev pub is_below : Shown F → Bool
  is_below s = lt (capped s) tau_suggest
