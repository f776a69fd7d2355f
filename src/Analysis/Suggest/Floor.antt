-- ===== src/Analysis/Suggest/Floor.antt =====
-- The scores of the rows of a reply.
use reportportal_analyzer_ng.Prelude.{
  if◌then◌else◌, Bool-cases, length, keep, is_empty, All, ℕ, suc, ◌+◌, ◌-◌, min, ◌≡◌, refl, ap, ◌∙◌,
  ◌≢◌, inl, inr, Bool, true, false, not, ◌&&◌, ◌||◌, Option, none, some, List, [], ◌∷◌, ◌++◌, arith,
}
use reportportal_analyzer_ng.Floats.{Floats, lt, fmin, fone}
use reportportal_analyzer_ng.Decision.Types.{Label, ti, same_label, DecisionResult}
use reportportal_analyzer_ng.Decision.Gbm.{tau_suggest}
use reportportal_analyzer_ng.Analysis.Evidence.{first_n}
use reportportal_analyzer_ng.Analysis.Effects.{is_auto}
use reportportal_analyzer_ng.Analysis.Suggest.{
  band_auto, band_suggest, band_below_suggest, Shown, SuggestRow, SuggestSettings,
  suggest_below_max_cap, is_gbm_below_suggest, has_item_id, suggest_below_floor, capped, argmax,
  first_declined, listed, reaches, is_below,
}
use reportportal_analyzer_ng.Analysis.Suggest.Render.{
  head_cosine, floor_of, real_all, suggestion_candidates, candidates_of, declined_of, all_below,
  below_of, real_of, row_band, row_of, rows_from, render_suggestions,
}
use reportportal_analyzer_ng.Analysis.Suggest.Rows.{
  count, count-append, count-first_n, count-keep, count-reorder_for_judge, first_declined_new,
}
use reportportal_analyzer_ng.Analysis.Suggest.Reply.{shown_of}

module _ {A : Type 0} where
  count_kept : (q : A → Bool) (xs : List A) → count (λ x. not (q x)) (keep q xs) ≡ 0
  count_kept q [] = refl
  count_kept q (x ∷ xs) = elim (Bool-cases (q x)) [
    | inl e ↦ rw e (ground (arith, e, count_kept q xs))
    | inr e ↦ rw e (count_kept q xs)
  ]

  count_none :
      (q : A → Bool) (xs : List A) → count (λ x. not (q x)) xs ≡ 0 → All (λ x. q x ≡ true) xs
  count_none q [] h = tt
  count_none q (x ∷ xs) h = elim (Bool-cases (q x)) [
    | inl e ↦ (e, count_none q xs (rw e at h))
    | inr e ↦
        let bad : suc (count (λ x. not (q x)) xs) ≡ 0 = rw e at h in
        let never : ⊥ = omega (arith, bad) in absurd never
  ]

module _ {F : Type 0} ⦃fl : Floats F⦄ where
  le-fmin : (a b c : F) → fl.le a b ≡ true → fl.le a c ≡ true → fl.le a (fmin b c) ≡ true
  le-fmin a b c h k = ground (arith, h, k)

  -- how many are under the floor of the reply
  abbrev under : SuggestSettings → List (Shown F) → ℕ
  under cfg xs = count (λ s. not (reaches (floor_of cfg) s)) xs

  under-listed :
      (cfg : SuggestSettings) (o : Option (Shown F))
      → ((s : Shown F) → o ≡ some s → reaches (floor_of cfg) s ≡ true)
      → under cfg (listed o) ≡ 0
  under-listed cfg none f = refl
  under-listed cfg (some s) f = ground (arith, f s refl)

  -- a row with a score that reaches the floor; without the dock, no row of the dock
  abbrev pub IsFloored : SuggestSettings → (F → F) → SuggestRow F → Type 0
  IsFloored cfg percent row =
      (score : F) × (row.match_score ≡ percent score)
      × (fl.le (floor_of cfg) score ≡ true)
      × (cfg.suggest_below_enabled ≡ false → row.band ≢ some band_below_suggest)

module _ {F C : Type 0} ⦃fl : Floats F⦄ where
  under-candidates_of :
      (cfg : SuggestSettings) (d : DecisionResult F C) (verdict : Option ℕ)
      → under cfg (candidates_of cfg d verdict) ≡ 0
  under-candidates_of cfg d verdict =
      let found = suggestion_candidates d in
      count-reorder_for_judge (λ s. not (reaches (floor_of cfg) s))
        (keep (reaches (floor_of cfg)) found) verdict (is_auto d.action)
      ∙ count_kept (reaches (floor_of cfg)) found

  declined_of-reaches :
      (d : DecisionResult F C) (used : List (Shown F)) (o : Option Label) (s : Shown F)
      → fl.le suggest_below_floor (fone {F = F}) ≡ true
      → declined_of d used o ≡ some s
      → reaches suggest_below_floor s ≡ true
  declined_of-reaches d used none s h e = cc
  declined_of-reaches d used (some group) s h e =
      let asked = is_gbm_below_suggest d.abstain_reason && fl.le suggest_below_floor d.confidence in
      elim (Bool-cases (asked && lt d.confidence tau_suggest)) [
        | inl b ↦
            let k : first_declined used d.confidence group d.stage_c ≡ some s = rw b at e in
            let enough : fl.le suggest_below_floor d.confidence ≡ true = ground (arith, b) in
            let score : s.score ≡ d.confidence =
              (first_declined_new used d.confidence group d.stage_c s k).1 in
            le-fmin suggest_below_floor fone s.score h
              (ap (λ x. fl.le suggest_below_floor x) score ∙ enough)
        | inr b ↦ let k : none ≡ some s = rw b at e in cc
      ]

  under-all_below :
      (cfg : SuggestSettings) (d : DecisionResult F C) (candidates : List (Shown F))
      → fl.le suggest_below_floor (fone {F = F}) ≡ true
      → under cfg candidates ≡ 0
      → under cfg (all_below cfg d candidates) ≡ 0
  under-all_below cfg d candidates h z =
      let below = keep is_below candidates in
      let used = first_n cfg.suggest_max (real_all candidates) ++ below in
      let declined = declined_of d used (argmax d.probs) in
      elim (Bool-cases cfg.suggest_below_enabled) [
        | inl e ↦
            let fits : (s : Shown F) → declined ≡ some s → reaches (floor_of cfg) s ≡ true =
              λ s k. rw e (declined_of-reaches d used (argmax d.probs) s h k) in
            let none_extra = under-listed cfg declined fits in
            let total : under cfg (below ++ listed declined) ≡ 0 = omega (
              arith,
              count-append (λ s. not (reaches (floor_of cfg) s)) below (listed declined),
              none_extra,
              count-keep (λ s. not (reaches (floor_of cfg) s)) is_below candidates,
              z,
            ) in
            ap (λ b. under cfg (if b then below ++ listed declined else [])) e ∙ total
        | inr e ↦ ap (λ b. under cfg (if b then below ++ listed declined else [])) e
      ]

  under-shown_of :
      (cfg : SuggestSettings) (d : DecisionResult F C) (candidates : List (Shown F))
      → fl.le suggest_below_floor (fone {F = F}) ≡ true
      → under cfg candidates ≡ 0
      → under cfg (shown_of cfg d candidates) ≡ 0
  under-shown_of cfg d candidates h z =
      let low = λ (s : Shown F). not (reaches (floor_of cfg) s) in
      let below = below_of cfg d candidates in
      let kept =
        if same_label d.label ti then cfg.suggest_max - length below else cfg.suggest_max in
      omega (
        arith,
        count-append low (real_of cfg d candidates) below,
        count-first_n low kept (real_all candidates),
        count-keep low (reaches tau_suggest) candidates,
        count-first_n low (min cfg.suggest_below_max suggest_below_max_cap)
            (all_below cfg d candidates),
        under-all_below cfg d candidates h z,
        z,
      )

  row_band-above :
      (d : DecisionResult F C) (i : ℕ) (score : F)
      → fl.le tau_suggest score ≡ true
      → some (row_band d i score) ≢ some band_below_suggest
  unfolding row_band
  row_band-above d i score h e =
      elim (Bool-cases (is_auto d.action && has_item_id i d.relevant_item_id)) [
        | inl b ↦ let k : some band_auto ≡ some band_below_suggest = rw (h, b) at e in cc
        | inr b ↦ let k : some band_suggest ≡ some band_below_suggest = rw (h, b) at e in cc
      ]

  row_of-IsFloored :
      (cfg : SuggestSettings) (percent : F → F) (d : DecisionResult F C) (reals rank : ℕ)
      (s : Shown F)
      → reaches (floor_of cfg) s ≡ true
      → IsFloored cfg percent (row_of percent d reals rank s)
  row_of-IsFloored cfg percent d reals rank s h = (
    capped s,
    refl,
    h,
    λ off.
        let above : fl.le tau_suggest (capped s) ≡ true = rw off at h in
        row_band-above d s.item_id (capped s) above,
  )

  rows_from-IsFloored :
      (cfg : SuggestSettings) (percent : F → F) (d : DecisionResult F C) (reals rank : ℕ)
      (ss : List (Shown F))
      → All (λ s. reaches (floor_of cfg) s ≡ true) ss
      → All (IsFloored cfg percent) (rows_from percent d reals rank ss)
  unfolding rows_from
  rows_from-IsFloored cfg percent d reals rank [] a = tt
  rows_from-IsFloored cfg percent d reals rank (s ∷ ss) a = (
    row_of-IsFloored cfg percent d reals rank s a.0,
    rows_from-IsFloored cfg percent d reals (rank + 1) ss a.1,
  )

  -- Every row of a reply shows the percentage of a score that reaches the floor: the dock's where the
  -- dock is on, the bar of a suggestion where it is off, and then no row has the band of the dock. The
  -- dock's floor is taken to be at most one.
  pub render_suggestions-IsFloored :
      (cfg : SuggestSettings) (percent : F → F) (d : DecisionResult F C) (verdict : Option ℕ)
      → fl.le suggest_below_floor (fone {F = F}) ≡ true
      → All (IsFloored cfg percent) (render_suggestions cfg percent d verdict)
  unfolding render_suggestions
  render_suggestions-IsFloored cfg percent d verdict h =
      let candidates = candidates_of cfg d verdict in
      let shown = shown_of cfg d candidates in
      let high =
        count_none (reaches (floor_of cfg)) shown
          (under-shown_of cfg d candidates h (under-candidates_of cfg d verdict)) in
      let reals = length (real_of cfg d candidates) in
      elim (Bool-cases
        (lt (head_cosine d.stage_c d.confidence) (floor_of cfg) || is_empty candidates)) [
          | inl e ↦ rw e tt
          | inr e ↦ rw e (rows_from-IsFloored cfg percent d reals 0 shown high)
        ]
