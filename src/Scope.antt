-- ===== src/Scope.antt =====
-- src/analyzer_ng/core/scope.py: which labelled history an analyzer mode admits, and the boosts.
pub mod Table
mod Tests
use reportportal_analyzer_ng.Prelude.{
  ◌==◌, if◌then◌else◌, is_empty, ℕ, ◌-◌, Bool, true, false, not, ◌&&◌, Option, none, some, map,
}
use reportportal_analyzer_ng.Floats.{Floats, fone}
use reportportal_analyzer_ng.Text.{Text, codes, text_eq, between, strip}

pub data Mode : Type 0 where
  launch_name_mode current_and_the_same_name current_launch previous_launch all_launches : Mode

pub record ScopeQuery : Type 0 where
  pub launch_id : ℕ
  pub launch_name : Text
  pub previous_launch_id : ℕ

pub record ScopeCandidate : Type 0 where
  pub launch_id : ℕ
  pub launch_name : Text
  pub issue_type_group : Option Text
  pub is_labeled : Bool

-- `str.upper()` as far as it can give a letter of a mode: the long s and the dotless i are the only
-- characters beyond ASCII that do
abbrev upper : ℕ → ℕ
upper c =
    if between b'a' b'z' c
    then c - 32
    else if c == 0x17f
    then b'S'
    else if c == 0x131
    then b'I'
    else c

abbrev known_mode : Text → Option Mode
known_mode t =
    if text_eq t (codes "LAUNCH_NAME")
    then some launch_name_mode
    else if text_eq t (codes "CURRENT_AND_THE_SAME_NAME")
    then some current_and_the_same_name
    else if text_eq t (codes "CURRENT_LAUNCH")
    then some current_launch
    else if text_eq t (codes "PREVIOUS_LAUNCH")
    then some previous_launch
    else if text_eq t (codes "ALL")
    then some all_launches
    else none

unfoldable pub mode : Option Text → Option Mode
mode none = none
mode (some t) = known_mode (map upper (strip t))

abbrev pub is_ti : Option Text → Bool
is_ti none = true
is_ti (some g) = text_eq g (codes "ti")

unfoldable pub passes_base : ScopeCandidate → Bool
passes_base cand = cand.is_labeled && not (is_ti cand.issue_type_group)

-- what the mode asks beyond the base filter
abbrev pub admits : Option Mode → ScopeQuery → ScopeCandidate → Bool
admits (some launch_name_mode) q cand =
    text_eq cand.launch_name q.launch_name && not (cand.launch_id == q.launch_id)
admits (some current_and_the_same_name) q cand = text_eq cand.launch_name q.launch_name
admits (some current_launch) q cand = cand.launch_id == q.launch_id
admits (some previous_launch) q cand = cand.launch_id == q.previous_launch_id
admits (some all_launches) q cand = not (cand.launch_id == q.launch_id)
admits none q cand = true

unfoldable pub in_analyze_scope : Option Text → ScopeQuery → ScopeCandidate → Bool
unfolding passes_base mode
in_analyze_scope analyzer_mode q cand =
    if not (passes_base cand) then false else admits (mode analyzer_mode) q cand

abbrev pub same_name : ScopeQuery → ScopeCandidate → Bool
same_name q cand = not (is_empty q.launch_name) && text_eq cand.launch_name q.launch_name

abbrev pub same_launch : ScopeQuery → ScopeCandidate → Bool
same_launch q cand = cand.launch_id == q.launch_id

module _ {F : Type 0} ⦃fl : Floats F⦄ where
  abbrev pub launch_boost : F
  launch_boost = fl.ratio 11 10

  -- `boost *= launch_boost` where the test holds
  abbrev lifted : Bool → F → F
  lifted b boost = if b then fl.mul boost launch_boost else boost

  abbrev lowered : Bool → F → F
  lowered b boost = if b then fl.div boost launch_boost else boost

  abbrev pub analyze_boost_of : Option Mode → Bool → Bool → F
  analyze_boost_of (some current_and_the_same_name) name launch =
      if launch then launch_boost else fone
  analyze_boost_of none name launch = lifted launch (lifted name fone)
  analyze_boost_of (some launch_name_mode) name launch = fone
  analyze_boost_of (some current_launch) name launch = fone
  analyze_boost_of (some previous_launch) name launch = fone
  analyze_boost_of (some all_launches) name launch = fone

  unfoldable pub analyze_boost : Option Text → ScopeQuery → ScopeCandidate → F
  unfolding mode
  analyze_boost analyzer_mode q cand =
      analyze_boost_of (mode analyzer_mode) (same_name q cand) (same_launch q cand)

  abbrev pub suggest_boost_of : Option Mode → ScopeQuery → ScopeCandidate → F
  suggest_boost_of (some launch_name_mode) q cand =
      lowered (same_launch q cand) (lifted (same_name q cand) fone)
  suggest_boost_of (some all_launches) q cand =
      lowered (same_launch q cand) (lifted (same_name q cand) fone)
  suggest_boost_of (some previous_launch) q cand =
      lifted (not (q.previous_launch_id == 0) && cand.launch_id == q.previous_launch_id) fone
  suggest_boost_of (some current_and_the_same_name) q cand =
      lifted (same_launch q cand) (lifted (same_name q cand) fone)
  suggest_boost_of (some current_launch) q cand =
      lifted (same_launch q cand) (lifted (same_name q cand) fone)
  suggest_boost_of none q cand = lifted (same_launch q cand) (lifted (same_name q cand) fone)

  unfoldable pub suggest_boost : Option Text → ScopeQuery → ScopeCandidate → F
  unfolding mode
  suggest_boost analyzer_mode q cand = suggest_boost_of (mode analyzer_mode) q cand
