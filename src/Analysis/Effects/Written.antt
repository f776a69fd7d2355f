-- ===== src/Analysis/Effects/Written.antt =====
-- The labels and the suggestion rows among the effects.
use reportportal_analyzer_ng.Prelude.{
  Bool-cases, ℕ, ◌≡◌, refl, ap, inl, inr, Bool, true, false, ◌&&◌, Option, none, some, List, [],
  ◌∷◌, ◌++◌, map,
}
use reportportal_analyzer_ng.Floats.{Floats, lt}
use reportportal_analyzer_ng.Text.{Text}
use reportportal_analyzer_ng.Decision.Types.{ti, same_label, DecisionResult}
use reportportal_analyzer_ng.Decision.Gbm.{tau_suggest}
use reportportal_analyzer_ng.Analysis.Evidence.{ModeMatch}
use reportportal_analyzer_ng.Analysis.Effects.{
  SuggestionIn, Effect, write_suggestion, add_members, enqueue, update_issue_type,
  upsert_launch_group, AnalysisResult, is_hash_method, record_membership, applied, has_two,
  enqueue_llm,
}

abbrev pub answers : List AnalysisResult → List (ℕ × Text)
answers rs = map (λ r. (r.item_id, r.issue_type)) rs

pub answers-append : (xs ys : List AnalysisResult) → answers (xs ++ ys) ≡ answers xs ++ answers ys
answers-append [] ys = refl
answers-append (x ∷ xs) ys = ap (λ l. (x.item_id, x.issue_type) ∷ l) (answers-append xs ys)

module _ {F C : Type 0} where
  abbrev label_first : Effect F C → List (ℕ × Text) → List (ℕ × Text)
  label_first (update_issue_type item_id label) rest = (item_id, label) ∷ rest
  label_first _ rest = rest

  -- the labels that are written, in order
  abbrev pub labels_written : List (Effect F C) → List (ℕ × Text)
  labels_written [] = []
  labels_written (e ∷ es) = label_first e (labels_written es)

  abbrev row_first : Effect F C → List (SuggestionIn F C) → List (SuggestionIn F C)
  row_first (write_suggestion row) rest = row ∷ rest
  row_first _ rest = rest

  -- the suggestion rows that are written, in order
  abbrev pub rows_written : List (Effect F C) → List (SuggestionIn F C)
  rows_written [] = []
  rows_written (e ∷ es) = row_first e (rows_written es)

  pub labels_written-append :
      (xs ys : List (Effect F C))
      → labels_written (xs ++ ys) ≡ labels_written xs ++ labels_written ys
  labels_written-append [] ys = refl
  labels_written-append (write_suggestion row ∷ xs) ys = labels_written-append xs ys
  labels_written-append (add_members mode is score by ∷ xs) ys = labels_written-append xs ys
  labels_written-append (enqueue role i ∷ xs) ys = labels_written-append xs ys
  labels_written-append (update_issue_type i label ∷ xs) ys =
      ap (λ l. (i, label) ∷ l) (labels_written-append xs ys)
  labels_written-append (upsert_launch_group fp size prior dominant ∷ xs) ys =
      labels_written-append xs ys

  pub rows_written-append :
      (xs ys : List (Effect F C)) → rows_written (xs ++ ys) ≡ rows_written xs ++ rows_written ys
  rows_written-append [] ys = refl
  rows_written-append (write_suggestion row ∷ xs) ys = ap (λ l. row ∷ l) (rows_written-append xs ys)
  rows_written-append (add_members mode is score by ∷ xs) ys = rows_written-append xs ys
  rows_written-append (enqueue role i ∷ xs) ys = rows_written-append xs ys
  rows_written-append (update_issue_type i label ∷ xs) ys = rows_written-append xs ys
  rows_written-append (upsert_launch_group fp size prior dominant ∷ xs) ys =
      rows_written-append xs ys

  pub record_membership_silent :
      (is : List ℕ) (m : Option (ModeMatch F))
      → (labels_written (record_membership {C = C} is m) ≡ [])
        × (rows_written (record_membership {C = C} is m) ≡ [])
  record_membership_silent [] m = (refl, refl)
  record_membership_silent (i ∷ is) none = (refl, refl)
  record_membership_silent (i ∷ is) (some m) = (refl, refl)

  pub applied_labels :
      (b : Bool) (item_id : ℕ) (d : DecisionResult F C)
      → (labels_written (applied b item_id d).0 ≡ answers (applied b item_id d).1)
        × (rows_written (applied b item_id d).0 ≡ [])
  applied_labels true item_id d = (refl, refl)
  applied_labels false item_id d = (refl, refl)

module _ {F C : Type 0} ⦃fl : Floats F⦄ where
  pub enqueue_llm_silent :
      (llm_on : Bool) (judge_tau : F) (item_id : ℕ) (d : DecisionResult F C) (candidates : Option ℕ)
      → (labels_written (enqueue_llm llm_on judge_tau item_id d candidates) ≡ [])
        × (rows_written (enqueue_llm llm_on judge_tau item_id d candidates) ≡ [])
  unfolding enqueue_llm
  enqueue_llm_silent false judge_tau item_id d candidates = (refl, refl)
  enqueue_llm_silent true judge_tau item_id d candidates =
      elim (Bool-cases (same_label d.label ti)) [
        | inl e ↦ rw e (refl, refl)
        | inr e ↦ elim (Bool-cases (is_hash_method d.method)) [
          | inl h ↦ rw (e, h) (refl, refl)
          | inr h ↦ elim (Bool-cases (fl.le tau_suggest d.confidence)) [
            | inl k ↦ elim (Bool-cases (lt d.confidence judge_tau && has_two candidates)) [
              | inl j ↦ rw (e, h, k, j) (refl, refl)
              | inr j ↦ rw (e, h, k, j) (refl, refl)
            ]
            | inr k ↦ rw (e, h, k) (refl, refl)
          ]
        ]
      ]
