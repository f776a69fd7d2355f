-- ===== src/Analysis/Suggest/Reply.antt =====
-- The reply to a suggestion request as a whole.
use reportportal_analyzer_ng.Prelude.{
  ◌==◌, if◌then◌else◌, Bool-cases, length, keep, any, is_empty, length-append, ℕ, ◌+◌, ◌-◌, ◌≤◌,
  min, max, ◌≡◌, refl, inl, inr, Bool, true, false, ◌&&◌, ◌||◌, Option, none, some, List, [], ◌∷◌,
  ◌++◌, arith,
}
use reportportal_analyzer_ng.Floats.{Floats, lt}
use reportportal_analyzer_ng.Decision.Types.{Label, ti, same_label, DecisionResult}
use reportportal_analyzer_ng.Decision.Gbm.{tau_suggest}
use reportportal_analyzer_ng.Analysis.Evidence.{first_n}
use reportportal_analyzer_ng.Analysis.Effects.{is_auto}
use reportportal_analyzer_ng.Analysis.Suggest.{
  Shown, SuggestRow, SuggestSettings, suggest_below_max_cap, is_gbm_below_suggest, shows,
  suggest_below_floor, argmax, first_declined, listed, reaches, is_below,
}
use reportportal_analyzer_ng.Analysis.Suggest.Render.{
  head_cosine, floor_of, real_all, answer, suggestion_candidates, candidates_of, declined_of,
  all_below, below_of, real_of, rows_from, render_suggestions,
}
use reportportal_analyzer_ng.Analysis.Suggest.Rows.{
  length-first_n, count, count-append, count-first_n, count-first_n_mono, count-keep, count_split,
  count-any, count-reorder_for_judge, Distinct, add_candidates-Distinct, first_declined_new,
}

smaller : (b : Bool) (n m : ℕ) → (if b then n - m else n) ≤ n
smaller true n m = omega arith
smaller false n m = omega arith

module _ {F : Type 0} where
  abbrev pub is_about : ℕ → SuggestRow F → Bool
  is_about i row = i == row.relevant_item

module _ {F C : Type 0} ⦃fl : Floats F⦄ where
  suggestion_candidates-Distinct : (d : DecisionResult F C) → Distinct (suggestion_candidates d)
  unfolding suggestion_candidates
  suggestion_candidates-Distinct d =
      add_candidates-Distinct (answer d d.relevant_item_id) d.stage_c (first d.relevant_item_id)
    where
      first : (o : Option ℕ) → Distinct (answer d o)
      first none i = omega arith
      first (some j) i = ground arith

  candidates_of-Distinct :
      (cfg : SuggestSettings) (d : DecisionResult F C) (verdict : Option ℕ)
      → Distinct (candidates_of cfg d verdict)
  candidates_of-Distinct cfg d verdict i =
      let found = suggestion_candidates d in
      omega (
        arith,
        count-reorder_for_judge (shows i) (keep (reaches (floor_of cfg)) found) verdict
            (is_auto d.action),
        count-keep (shows i) (reaches (floor_of cfg)) found,
        suggestion_candidates-Distinct d i,
      )

  declined_of_new :
      (d : DecisionResult F C) (used : List (Shown F)) (o : Option Label) (i : ℕ)
      → count (shows i) used ≤ 1
      → count (shows i) (used ++ listed (declined_of d used o)) ≤ 1
  declined_of_new d used o i h = go (declined_of d used o) (new o)
    where
      new :
          (o : Option Label) (s : Shown F)
          → declined_of d used o ≡ some s
          → any (shows s.item_id) used ≡ false
      new none s e = cc
      new (some group) s e =
          elim (Bool-cases (
            is_gbm_below_suggest d.abstain_reason
            && fl.le suggest_below_floor d.confidence
            && lt d.confidence tau_suggest)) [
              | inl b ↦
                  let k : first_declined used d.confidence group d.stage_c ≡ some s = rw b at e in
                  (first_declined_new used d.confidence group d.stage_c s k).0
              | inr b ↦ let k : none ≡ some s = rw b at e in cc
            ]

      go :
          (p : Option (Shown F))
          → ((s : Shown F) → p ≡ some s → any (shows s.item_id) used ≡ false)
          → count (shows i) (used ++ listed p) ≤ 1
      go none f = omega (arith, count-append (shows i) used [], h)
      go (some s) f = ground (
        arith,
        count-append (shows i) used (s ∷ []),
        h,
        count-any (shows s.item_id) used (f s refl),
      )

  -- the rows of a reply before they are rendered
  abbrev pub shown_of : SuggestSettings → DecisionResult F C → List (Shown F) → List (Shown F)
  shown_of cfg d candidates = real_of cfg d candidates ++ below_of cfg d candidates

  all_below-used :
      (cfg : SuggestSettings) (d : DecisionResult F C) (candidates : List (Shown F)) (i : ℕ)
      → Distinct candidates
      → count (shows i) (first_n cfg.suggest_max (real_all candidates))
          + count (shows i) (all_below cfg d candidates)
        ≤ 1
  all_below-used cfg d candidates i h =
      let below = keep is_below candidates in
      let front = first_n cfg.suggest_max (real_all candidates) in
      let used = front ++ below in
      let parts = count_split (shows i) (reaches tau_suggest) candidates in
      let front_fits = count-first_n (shows i) cfg.suggest_max (real_all candidates) in
      let joined = count-append (shows i) front below in
      elim (Bool-cases cfg.suggest_below_enabled) [
        | inl e ↦
            let extra = listed (declined_of d used (argmax d.probs)) in
            let total =
              declined_of_new d used (argmax d.probs) i
                (omega (arith, parts, front_fits, joined, h i)) in
            rw e (
              omega (
                arith,
                total,
                count-append (shows i) used extra,
                count-append (shows i) below extra,
                joined,
              ))
        | inr e ↦ rw e (omega (arith, parts, front_fits, h i))
      ]

  shown_of-Distinct :
      (cfg : SuggestSettings) (d : DecisionResult F C) (candidates : List (Shown F))
      → Distinct candidates
      → Distinct (shown_of cfg d candidates)
  shown_of-Distinct cfg d candidates h i =
      let below = below_of cfg d candidates in
      let kept =
        if same_label d.label ti then cfg.suggest_max - length below else cfg.suggest_max in
      omega (
        arith,
        all_below-used cfg d candidates i h,
        count-append (shows i) (real_of cfg d candidates) below,
        count-first_n (shows i) (min cfg.suggest_below_max suggest_below_max_cap)
            (all_below cfg d candidates),
        count-first_n_mono (shows i) kept cfg.suggest_max (real_all candidates)
            (smaller (same_label d.label ti) cfg.suggest_max (length below)),
      )

  length-shown_of :
      (cfg : SuggestSettings) (d : DecisionResult F C) (candidates : List (Shown F))
      → (length (shown_of cfg d candidates) ≤ cfg.suggest_max + 3)
        × (d.label ≡ ti → length (shown_of cfg d candidates) ≤ max cfg.suggest_max 3)
  length-shown_of cfg d candidates =
      let below = below_of cfg d candidates in
      let kept =
        if same_label d.label ti then cfg.suggest_max - length below else cfg.suggest_max in
      let both = length-append (real_of cfg d candidates) below in
      let reals = length-first_n kept (real_all candidates) in
      let belows =
        length-first_n (min cfg.suggest_below_max suggest_below_max_cap)
          (all_below cfg d candidates) in
      (
        omega (
          arith,
          both,
          reals,
          belows,
          smaller (same_label d.label ti) cfg.suggest_max (length below),
        ),
        λ h.
            let exact : kept ≡ cfg.suggest_max - length below = rw h refl in
            omega (arith, both, reals, belows, exact),
      )

  -- as many rows about an item, and in all, as are shown
  rows_from-count :
      (percent : F → F) (d : DecisionResult F C) (reals rank : ℕ) (ss : List (Shown F)) (i : ℕ)
      → (count (is_about i) (rows_from percent d reals rank ss) ≡ count (shows i) ss)
        × (length (rows_from percent d reals rank ss) ≡ length ss)
  unfolding rows_from
  rows_from-count percent d reals rank [] i = (refl, refl)
  rows_from-count percent d reals rank (s ∷ ss) i =
      let (c, l) = rows_from-count percent d reals (rank + 1) ss i in
      (ground (arith, c), omega (arith, l))

  -- A reply shows no item twice, however the judge reorders it. It has at most the configured number of
  -- suggestions and three rows of the dock; and when the decision abstains, the dock takes its rows out
  -- of the configured number, so that the reply is no longer than that or than three.
  pub render_suggestions_lem :
      (cfg : SuggestSettings) (percent : F → F) (d : DecisionResult F C) (verdict : Option ℕ)
      → let rows = render_suggestions cfg percent d verdict in
        ((i : ℕ) → count (is_about i) rows ≤ 1)
        × (length rows ≤ cfg.suggest_max + 3)
        × (d.label ≡ ti → length rows ≤ max cfg.suggest_max 3)
  unfolding render_suggestions
  render_suggestions_lem cfg percent d verdict =
      let candidates = candidates_of cfg d verdict in
      let shown = shown_of cfg d candidates in
      let distinct = shown_of-Distinct cfg d candidates (candidates_of-Distinct cfg d verdict) in
      let (short, shorter) = length-shown_of cfg d candidates in
      let reals = length (real_of cfg d candidates) in
      elim (Bool-cases
        (lt (head_cosine d.stage_c d.confidence) (floor_of cfg) || is_empty candidates)) [
          | inl e ↦ rw e (λ i. omega arith, omega arith, λ h. omega arith)
          | inr e ↦ rw e (
            λ i. omega (arith, (rows_from-count percent d reals 0 shown i).0, distinct i),
            omega (arith, (rows_from-count percent d reals 0 shown 0).1, short),
            λ h. omega (arith, (rows_from-count percent d reals 0 shown 0).1, shorter h),
          )
        ]
