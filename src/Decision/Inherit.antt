-- ===== src/Decision/Inherit.antt =====
-- Stage A of src/analyzer_ng/core/decision.py: when the label of an exact error-hash match is
-- inherited, and the gate on the discriminants that the hash has masked away.
pub mod Guards
use reportportal_analyzer_ng.Prelude.{
  ltb, ◌==◌, if◌then◌else◌, length, keep, all, is_empty, ℕ, ◌-◌, ◌*◌, Bool, true, false, not, ◌&&◌,
  ◌||◌, Option, none, some, List, [], ◌∷◌,
}
use reportportal_analyzer_ng.Floats.{Floats}
use reportportal_analyzer_ng.Text.{Text, text_eq, same_set}
use reportportal_analyzer_ng.Decision.Types.{
  Label, nd, unknown, LabelSource, is_human, is_ai, HashMatch, get_or, base_label, base,
}
use reportportal_analyzer_ng.Decision.Similarity.{identifier_jaccard}

abbrev pub day : ℕ
day = 86400000000

-- `STAGE_A_MAX_AGE_DAYS`, in microseconds
abbrev pub stage_a_max_age : ℕ
stage_a_max_age = 180 * day

-- `_age_days`, in microseconds: `max(0.0, now - ts)`
abbrev pub age : Option ℕ → ℕ → ℕ
age none now = 0
age (some ts) now = now - ts

-- never `ti` or a foreign locator (both without a base), nor a suggested `nd`
abbrev pub is_inheritable : Label → Option LabelSource → Bool
is_inheritable unknown s = false
is_inheritable nd s = not (is_ai s)
is_inheritable _ s = true

module _ {F : Type 0} ⦃fl : Floats F⦄ where
  abbrev pub stage_a_confidence : F
  stage_a_confidence = fl.ratio 95 100

  abbrev pub stage_a_msg_jaccard : F
  stage_a_msg_jaccard = fl.ratio 5 10

  abbrev pub stage_a_human_min_conf : F
  stage_a_human_min_conf = fl.ratio 9 10

  -- what a match must share with the query to count
  abbrev pub agrees : List Text → List Text → HashMatch F → Bool
  agrees statuses tokens m =
      same_set m.status_codes statuses
      && fl.le stage_a_msg_jaccard (identifier_jaccard tokens m.msg_tokens)

  unfoldable pub discriminant_filter :
      List (HashMatch F) → List Text → List Text → List (HashMatch F)
  discriminant_filter matches statuses tokens = keep (agrees statuses tokens) matches

  unfoldable pub discriminant_gate_blocked : ℕ → List (HashMatch F) → List Text → List Text → Bool
  unfolding discriminant_filter
  discriminant_gate_blocked fp matches statuses tokens =
      if fp == 0 || is_empty matches
      then false
      else is_empty (discriminant_filter matches statuses tokens)

  -- `label_ts or datetime.min`
  abbrev pub stamp : HashMatch F → ℕ
  stamp m = get_or m.label_ts 0

  -- `max(matches, key=stamp)`: the first of the latest
  unfoldable pub newest_from : HashMatch F → List (HashMatch F) → HashMatch F
  newest_from best [] = best
  newest_from best (m ∷ ms) = newest_from (if ltb (stamp best) (stamp m) then m else best) ms

  -- `len({m.issue_type for m in matches}) == 1`, of a list that is not empty
  abbrev pub unanimous : HashMatch F → List (HashMatch F) → Bool
  unanimous m ms = all (λ n. text_eq n.issue_type m.issue_type) ms

  abbrev pub supported : HashMatch F → List (HashMatch F) → HashMatch F → Bool
  supported m ms newest =
      ltb 0 (length ms) && unanimous m ms
      || is_empty ms
        && is_human newest.label_source
        && fl.le stage_a_human_min_conf newest.confidence

  unfoldable pub inherit_from : ℕ → List (HashMatch F) → Option (HashMatch F)
  inherit_from now [] = none
  inherit_from now (m ∷ ms) =
      let newest = newest_from m ms in
      if ltb stage_a_max_age (age newest.label_ts now)
      then none
      else if not (supported m ms newest)
      then none
      else if is_inheritable (base_label newest.issue_type) newest.label_source
      then some newest
      else none

  unfoldable pub stage_a_inherit :
      ℕ → List (HashMatch F) → List Text → List Text → ℕ → Option (HashMatch F)
  unfolding discriminant_filter inherit_from
  stage_a_inherit fp matches statuses tokens now =
      if fp == 0 || is_empty matches
      then none
      else inherit_from now (discriminant_filter matches statuses tokens)
