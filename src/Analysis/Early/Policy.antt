-- ===== src/Analysis/Early/Policy.antt =====
-- What the early pass may label.
use mathlib.Core.Path.{subst}
use reportportal_analyzer_ng.Prelude.{
  ℕ, Option, none, sym, ap, ◌∙◌, Bool-cases, is_empty, In, ◌≡◌, refl, ◌≢◌, ◌⊎◌, inl, inr, Bool,
  true, false, not, ◌&&◌, ◌||◌, List, [], ◌∷◌, ◌++◌,
}
use reportportal_analyzer_ng.Floats.{Floats}
use reportportal_analyzer_ng.Text.{Text, text_eq, text_eq_sound}
use reportportal_analyzer_ng.Decision.Types.{
  Label, pb, ab, si, nd, ti, unknown, same_label, Method, method_hash, method_kb, method_gbm,
  method_rule_cold, Action, auto, suggest, abstain, FeatureContext, DecisionResult,
}
use reportportal_analyzer_ng.Analysis.Evidence.{ModeMatch, Request, decide_item}
use reportportal_analyzer_ng.Analysis.Effects.Written.{
  answers, answers-append, labels_written, labels_written-append, record_membership_silent,
  applied_labels, enqueue_llm_silent,
}
use reportportal_analyzer_ng.Analysis.Effects.{
  Effect, write_suggestion, record_membership, suggestion_of, applied, enqueue_llm, AnalysisResult,
  is_auto, result_of,
}
use reportportal_analyzer_ng.Analysis.Early.{
  EarlySettings, EarlyItem, kb_inherit_only, kb_inherit_and_pb, is_deterministic, is_gbm_method,
  allows_deterministic, pb_gbm_applies, early_applies, early_effects, early_item, early_items,
  analyze_item_early,
}

In-append : {A : Type 0} (x : A) (xs ys : List A) → In x (xs ++ ys) → In x xs ⊎ In x ys
In-append x [] ys i = inr i
In-append x (y ∷ xs) ys (inl e) = inl (inl e)
In-append x (y ∷ xs) ys (inr i) = elim (In-append x xs ys i) [ inl j ↦ inl (inr j) | inr j ↦ inr j ]

module _ {F C : Type 0} ⦃fl : Floats F⦄ where
  -- an automatic decision for a defect group other than a system issue, that the policy trusts: a hash
  -- or a mode under either policy, or a product bug of the model, sure enough, under the wider one
  abbrev pub IsTrusted : Text → F → DecisionResult F C → Type 0
  IsTrusted policy early_gbm_pb_min d =
      (d.action ≡ auto)
      × (d.label ≢ ti)
      × (d.label ≢ si)
      × ((((d.method ≡ method_hash) ⊎ (d.method ≡ method_kb))
            × ((policy ≡ kb_inherit_only) ⊎ (policy ≡ kb_inherit_and_pb)))
          ⊎ ((policy ≡ kb_inherit_and_pb)
              × (d.method ≡ method_gbm)
              × (d.label ≡ pb)
              × (fl.le early_gbm_pb_min d.confidence ≡ true)))

is_auto_sound : (a : Action) → is_auto a ≡ true → a ≡ auto
is_auto_sound auto h = refl
is_auto_sound suggest h = cc
is_auto_sound abstain h = cc

is_deterministic_sound :
    (m : Method) → is_deterministic m ≡ true → (m ≡ method_hash) ⊎ (m ≡ method_kb)
is_deterministic_sound method_hash h = inl refl
is_deterministic_sound method_kb h = inr refl
is_deterministic_sound method_gbm h = cc
is_deterministic_sound method_rule_cold h = cc

is_gbm_method_sound : (m : Method) → is_gbm_method m ≡ true → m ≡ method_gbm
is_gbm_method_sound method_gbm h = refl
is_gbm_method_sound method_hash h = cc
is_gbm_method_sound method_kb h = cc
is_gbm_method_sound method_rule_cold h = cc

is_pb_sound : (l : Label) → same_label l pb ≡ true → l ≡ pb
is_pb_sound pb h = refl
is_pb_sound ab h = cc
is_pb_sound si h = cc
is_pb_sound nd h = cc
is_pb_sound ti h = cc
is_pb_sound unknown h = cc

neither : (l : Label) → not (same_label l ti || same_label l si) ≡ true → (l ≢ ti) × (l ≢ si)
neither l h = (
  λ e.
      let bad : not (same_label ti ti || same_label ti si) ≡ true =
        subst (λ k. not (same_label k ti || same_label k si) ≡ true) e h in
      cc,
  λ e.
      let bad : not (same_label si ti || same_label si si) ≡ true =
        subst (λ k. not (same_label k ti || same_label k si) ≡ true) e h in
      cc,
)

both : (a b : Bool) → (a && b) ≡ true → (a ≡ true) × (b ≡ true)
both true b h = (refl, h)
both false b h = cc

either : (a b : Bool) → (a || b) ≡ true → (a ≡ true) ⊎ (b ≡ true)
either true b h = inl refl
either false b h = inr h

module _ {F C : Type 0} ⦃fl : Floats F⦄ where
  early_applies-IsTrusted :
      (policy : Text) (early_gbm_pb_min : F) (d : DecisionResult F C)
      → early_applies policy early_gbm_pb_min d ≡ true
      → IsTrusted policy early_gbm_pb_min d
  unfolding early_applies
  early_applies-IsTrusted policy bar d h =
      let fit = not (same_label d.label ti || same_label d.label si) in
      let by_rule = is_deterministic d.method && allows_deterministic policy in
      let by_model = pb_gbm_applies policy bar d in
      let (front, trusted) = both (is_auto d.action && fit) (by_rule || by_model) h in
      let (is_auto_d, fine) = both (is_auto d.action) fit front in
      let (not_ti, not_si) = neither d.label fine in
      (
        is_auto_sound d.action is_auto_d,
        not_ti,
        not_si,
        elim (either by_rule by_model trusted) [
          | inl k ↦
              let (det, allowed) =
                both (is_deterministic d.method) (allows_deterministic policy) k in
              inl (
                is_deterministic_sound d.method det,
                elim (either (text_eq policy kb_inherit_only) (text_eq policy kb_inherit_and_pb)
                    allowed) [
                      | inl e ↦ inl (text_eq_sound policy kb_inherit_only e)
                      | inr e ↦ inr (text_eq_sound policy kb_inherit_and_pb e)
                    ],
              )
          | inr k ↦
              let named_gbm = text_eq policy kb_inherit_and_pb && is_gbm_method d.method in
              let (k2, sure) =
                both (named_gbm && same_label d.label pb) (fl.le bar d.confidence) k in
              let (k3, a_pb) = both named_gbm (same_label d.label pb) k2 in
              let (named, gbm) =
                both (text_eq policy kb_inherit_and_pb) (is_gbm_method d.method) k3 in
              inr (
                text_eq_sound policy kb_inherit_and_pb named,
                is_gbm_method_sound d.method gbm,
                is_pb_sound d.label a_pb,
                sure,
              )
        ],
      )

module _ {F B C : Type 0} ⦃fl : Floats F⦄ (cfg : EarlySettings F)
    (other_columns : FeatureContext F B → C) (r : Request) (auto_min_prob : F) where
  abbrev decided : EarlyItem F B C → DecisionResult F C
  decided i = (decide_item other_columns r auto_min_prob i.evidence).0

  abbrev pub Earned : List (EarlyItem F B C) → AnalysisResult → Type 0
  Earned items res =
      (i : EarlyItem F B C) × In i items
      × (res ≡ result_of i.evidence.item_id (decided i))
      × IsTrusted cfg.early_label_policy cfg.early_gbm_pb_min (decided i)

  early_item-Earned :
      (i : EarlyItem F B C) (res : AnalysisResult)
      → In res (early_item cfg other_columns r auto_min_prob i).1
      → (res ≡ result_of i.evidence.item_id (decided i))
        × IsTrusted cfg.early_label_policy cfg.early_gbm_pb_min (decided i)
  early_item-Earned i res j = elim (Bool-cases (is_empty i.signature_text)) [
    | inl e ↦ let k : ⊥ = rw e at j in absurd k
    | inr e ↦
        let k : In res
            (early_effects cfg i.evidence.item_id
              (decide_item other_columns r auto_min_prob i.evidence)).1 =
          rw e at j in
        elim (Bool-cases (early_applies cfg.early_label_policy cfg.early_gbm_pb_min (decided i))) [
          | inl a ↦
              let l : In res (result_of i.evidence.item_id (decided i) ∷ []) = rw a at k in
              elim l [
                | inl q ↦ (
                  q,
                  early_applies-IsTrusted cfg.early_label_policy cfg.early_gbm_pb_min (decided i) a,
                )
                | inr q ↦ absurd q
              ]
          | inr a ↦ let l : ⊥ = rw a at k in absurd l
        ]
  ]

  early_items-Earned :
      (items : List (EarlyItem F B C)) (res : AnalysisResult)
      → In res (early_items cfg other_columns r auto_min_prob items).1
      → Earned items res
  unfolding early_items
  early_items-Earned [] res j = absurd j
  early_items-Earned (i ∷ is) res j =
      elim (In-append res (early_item cfg other_columns r auto_min_prob i).1
        (early_items cfg other_columns r auto_min_prob is).1 j) [
          | inl k ↦ let (e, t) = early_item-Earned i res k in (i, inl refl, e, t)
          | inr k ↦ let (n, l, e, t) = early_items-Earned is res k in (n, inr l, e, t)
        ]

  -- the labels that an output writes are those of its answers
  abbrev Agrees : List (Effect F C) × List AnalysisResult → Type 0
  Agrees out = labels_written out.0 ≡ answers out.1

  early_effects-Agrees :
      (item_id : ℕ) (r : DecisionResult F C × Option (ModeMatch F))
      → Agrees (early_effects cfg item_id r)
  early_effects-Agrees item_id (d, m) =
      let may = early_applies cfg.early_label_policy cfg.early_gbm_pb_min d in
      let joins = record_membership (item_id ∷ []) m in
      let row = suggestion_of item_id none true d in
      let jobs = enqueue_llm cfg.llm_on cfg.judge_tau item_id d none in
      let labelled = (applied may item_id d).0 in
      let (no_label, no_row) = record_membership_silent {C = C} (item_id ∷ []) m in
      let (no_label2, no_row2) = enqueue_llm_silent cfg.llm_on cfg.judge_tau item_id d none in
      labels_written-append joins (write_suggestion row ∷ (jobs ++ labelled))
      ∙ rw (no_label, labels_written-append jobs labelled, no_label2)
          (applied_labels may item_id d).0

  early_item-Agrees :
      (i : EarlyItem F B C) → Agrees (early_item cfg other_columns r auto_min_prob i)
  early_item-Agrees i = elim (Bool-cases (is_empty i.signature_text)) [
    | inl e ↦ rw e refl
    | inr e ↦ rw e (
        early_effects-Agrees i.evidence.item_id
          (decide_item other_columns r auto_min_prob i.evidence))
  ]

  early_items-Agrees :
      (items : List (EarlyItem F B C))
      → Agrees (early_items cfg other_columns r auto_min_prob items)
  unfolding early_items
  early_items-Agrees [] = refl
  early_items-Agrees (i ∷ is) =
      let (effects, results) = early_item cfg other_columns r auto_min_prob i in
      let (later, later_results) = early_items cfg other_columns r auto_min_prob is in
      labels_written-append effects later
      ∙ rw (early_item-Agrees i, early_items-Agrees is) (sym (answers-append results later_results))

  analyze_item_early-Agrees :
      (items : List (EarlyItem F B C))
      → Agrees (analyze_item_early cfg other_columns r auto_min_prob items)
  unfolding analyze_item_early
  analyze_item_early-Agrees items = elim (Bool-cases cfg.early_item_analysis) [
    | inl e ↦ rw e (early_items-Agrees items)
    | inr e ↦ rw e refl
  ]

  analyze_item_early-answers :
      (items : List (EarlyItem F B C)) (res : AnalysisResult)
      → In res (analyze_item_early cfg other_columns r auto_min_prob items).1
      → (cfg.early_item_analysis ≡ true) × Earned items res
  unfolding analyze_item_early
  analyze_item_early-answers items res j = elim (Bool-cases cfg.early_item_analysis) [
    | inl e ↦
        let k : In res (early_items cfg other_columns r auto_min_prob items).1 = rw e at j in
        (e, early_items-Earned items res k)
    | inr e ↦ let k : ⊥ = rw e at j in absurd k
  ]

  -- The early pass writes a label exactly for each of its answers, in their order, and it answers only
  -- for items whose decision is automatic, for a defect group other than `ti` and the system issue, and
  -- trusted by the policy: a hash or a mode under either named policy, or a product bug of the model at
  -- the early bar under `kb_inherit_and_pb`. Under any other policy, and with the pass switched off,
  -- it labels nothing.
  pub analyze_item_early-Earned :
      (items : List (EarlyItem F B C))
      → let out = analyze_item_early cfg other_columns r auto_min_prob items in
        (labels_written out.0 ≡ answers out.1)
        × ((res : AnalysisResult)
            → In res out.1
            → (cfg.early_item_analysis ≡ true) × Earned items res)
        × ((cfg.early_item_analysis ≡ false)
              ⊎ ((cfg.early_label_policy ≢ kb_inherit_only)
                  × (cfg.early_label_policy ≢ kb_inherit_and_pb))
            → labels_written out.0 ≡ [])
  analyze_item_early-Earned items =
      let out = analyze_item_early cfg other_columns r auto_min_prob items in
      let agrees = analyze_item_early-Agrees items in
      (
        agrees,
        analyze_item_early-answers items,
        λ off.
            agrees
            ∙ ap answers
                (nothing out.1 (λ res j. refuses off (analyze_item_early-answers items res j))),
      )
    where
      nothing : (l : List AnalysisResult) → ((res : AnalysisResult) → In res l → ⊥) → l ≡ []
      nothing [] f = refl
      nothing (x ∷ xs) f = absurd (f x (inl refl))

      refuses :
          {res : AnalysisResult}
          → (cfg.early_item_analysis ≡ false)
            ⊎ ((cfg.early_label_policy ≢ kb_inherit_only)
                × (cfg.early_label_policy ≢ kb_inherit_and_pb))
          → (cfg.early_item_analysis ≡ true) × Earned items res
          → ⊥
      refuses (inl f) (e, x) = cc
      refuses (inr n) (e, (i, j, q, (a, t, s, inl (d, inl p)))) = n.0 p
      refuses (inr n) (e, (i, j, q, (a, t, s, inl (d, inr p)))) = n.1 p
      refuses (inr n) (e, (i, j, q, (a, t, s, inr (p, g, l, c)))) = n.1 p
