-- ===== src/Decision/Gbm/Bands.antt =====
-- What the bands promise of a model prediction, and what the human-confirmed floor requires.
use mathlib.Core.Path.{subst}
use reportportal_analyzer_ng.Prelude.{
  Bool-cases, head?, ◌≡◌, refl, sym, ◌∙◌, ◌≢◌, ◌↔◌, inl, inr, true, false, ◌&&◌, ◌||◌, Option, none,
  some, List, [], ◌∷◌, arith,
}
use reportportal_analyzer_ng.Floats.{Floats, lt, same, fzero, fone, clamp01, lt-le}
use reportportal_analyzer_ng.Text.{Text, split}
use reportportal_analyzer_ng.Decision.Types.{
  Label, ti, same_label, is_base, is_human, auto, abstain, gbm_boilerplate_only_neighbor, Candidate,
  Features, GbmDecision, DecisionResult, base,
}
use reportportal_analyzer_ng.Decision.Similarity.{frozenset, identifier_jaccard}
use reportportal_analyzer_ng.Decision.Inherit.{stage_a_msg_jaccard}
use reportportal_analyzer_ng.Decision.Gbm.{
  gbm_label, tau_suggest, result, pick_relevant, floor_holds, human_confirmed_hash_floor,
  boilerplate_head, abstained, promoted, supported_by, gbm_result,
}

gbm_label-base : (t : Text) → gbm_label t ≢ ti → is_base (gbm_label t) ≡ true
gbm_label-base t h = ground arith

not_ti : (l : Label) → same_label l ti ≡ false → l ≢ ti
not_ti l n h = ground arith

module _ {F : Type 0} ⦃fl : Floats F⦄ where
  low_not_auto :
      (p tau_auto : F) (label : Label)
      → lt tau_suggest tau_auto ≡ true
      → (same_label label ti || lt p tau_suggest) ≡ true
      → fl.le tau_auto p ≡ true
      → label ≡ ti
  low_not_auto p tau_auto label l low h = ground (
    arith,
    lt-le tau_suggest tau_auto l,
    fl.le_trans tau_suggest tau_auto p (lt-le tau_suggest tau_auto l) h,
  )

module _ {F C : Type 0} ⦃fl : Floats F⦄ where
  -- what makes the top neighbour fit to lift an abstention
  pub record IsFloor (stage_c : List (Candidate F)) (features : Features F C) (tokens : List Text)
      (c : Candidate F) : Type 0 where
    pub top : head? stage_c ≡ some c
    pub hashed : c.same_error_hash ≡ true
    pub confirmed : is_human c.label_source ≡ true
    pub unblocked : same features.hash_gate_blocked fzero ≡ true
    pub statuses_clean :
        same features.status_codes_present fone ≡ true
        → same features.status_codes_match_top1 fone ≡ true
    pub similar :
        fl.le stage_a_msg_jaccard (identifier_jaccard tokens (frozenset (split c.msg_text))) ≡ true
    pub based : is_base (base c.issue_type) ≡ true

  floor_holds-IsFloor :
      (c : Candidate F) (rest : List (Candidate F)) (features : Features F C) (tokens : List Text)
      → floor_holds c features tokens ≡ true
      → IsFloor (c ∷ rest) features tokens c
  floor_holds-IsFloor c rest features tokens h = record {
    top = refl;
    hashed = ground arith;
    confirmed = ground arith;
    unblocked = ground arith;
    statuses_clean = λ p. ground arith;
    similar = ground arith;
    based = ground arith;
  }

  IsFloor-floor_holds :
      (c : Candidate F) (rest : List (Candidate F)) (features : Features F C) (tokens : List Text)
      → IsFloor (c ∷ rest) features tokens c
      → floor_holds c features tokens ≡ true
  IsFloor-floor_holds c rest features tokens f = ground arith

  -- The floor is exactly the top neighbour that passes every guard.
  pub human_confirmed_hash_floor-IsFloor :
      (stage_c : List (Candidate F)) (features : Features F C) (tokens : List Text)
      (c : Candidate F)
      → (human_confirmed_hash_floor stage_c features tokens ≡ some c)
        ↔ IsFloor stage_c features tokens c
  unfolding human_confirmed_hash_floor
  human_confirmed_hash_floor-IsFloor [] features tokens c = (λ h. cc, λ f. let t = f.top in cc)
  human_confirmed_hash_floor-IsFloor (top1 ∷ rest) features tokens c = (
    λ h. elim (Bool-cases (floor_holds top1 features tokens)) [
      | inl b ↦
          let k : ◌≡◌ {A = Option (Candidate F)} (some top1) (some c) = rw b at h in
          let e : top1 ≡ c = cc in
          subst (λ z. IsFloor (top1 ∷ rest) features tokens z) e
            (floor_holds-IsFloor top1 rest features tokens b)
      | inr b ↦ let k : ◌≡◌ {A = Option (Candidate F)} none (some c) = rw b at h in cc
    ],
    λ f.
        let t = f.top in
        let e : c ≡ top1 = cc in
        let g : IsFloor (top1 ∷ rest) features tokens top1 =
          subst (λ z. IsFloor (top1 ∷ rest) features tokens z) e f in
        rw (IsFloor-floor_holds top1 rest features tokens g) t,
  )

  abbrev pub decided :
      GbmDecision F → List (Candidate F) → Features F C → List Text → F → DecisionResult F C
  decided gbm stage_c features tokens tau_auto =
      result features stage_c tau_auto (gbm_result gbm stage_c features tokens tau_auto)

  -- the label that the floor gives has a base
  promoted-action :
      (gbm : GbmDecision F) (p tau_auto : F) (o : Option (Candidate F))
      (stage_c : List (Candidate F)) (features : Features F C) (tokens : List Text)
      → human_confirmed_hash_floor stage_c features tokens ≡ o
      → lt tau_suggest tau_auto ≡ true
      → ((result features stage_c tau_auto (promoted gbm p o)).action ≢ auto)
        × (((result features stage_c tau_auto (promoted gbm p o)).action ≡ abstain)
            ↔ ((result features stage_c tau_auto (promoted gbm p o)).label ≡ ti))
  unfolding result
  promoted-action gbm p tau_auto none stage_c features tokens e l =
      (λ h. cc, (λ h. refl, λ h. refl))
  promoted-action gbm p tau_auto (some c) stage_c features tokens e l =
      let b = (((human_confirmed_hash_floor-IsFloor stage_c features tokens c).0 e).based) in
      (
        λ h. ground (arith, fl.le_refl tau_suggest),
        (λ h. ground (arith, fl.le_refl tau_suggest), λ h. ground arith),
      )

  supported-action :
      (gbm : GbmDecision F) (p tau_auto : F) (label : Label) (o : Option (Candidate F))
      (stage_c : List (Candidate F)) (features : Features F C)
      → same_label label ti ≡ false
      → fl.le tau_suggest p ≡ true
      → (((result features stage_c tau_auto (supported_by gbm p label o)).action ≡ auto)
          ↔ (fl.le tau_auto p ≡ true))
        × ((result features stage_c tau_auto (supported_by gbm p label o)).action ≢ abstain)
        × ((result features stage_c tau_auto (supported_by gbm p label o)).label ≡ label)
  unfolding result
  supported-action gbm p tau_auto label none stage_c features n s =
      ((λ h. ground arith, λ h. ground arith), λ h. ground arith, refl)
  supported-action gbm p tau_auto label (some c) stage_c features n s =
      ((λ h. ground arith, λ h. ground arith), λ h. ground arith, refl)

  -- With the suggest threshold below the auto threshold, a prediction is applied automatically
  -- exactly if its clamped probability reaches the auto threshold and its label is a base label; the
  -- action is to abstain exactly if the label of the decision is `ti`.
  pub gbm_bands :
      (gbm : GbmDecision F) (stage_c : List (Candidate F)) (features : Features F C)
      (tokens : List Text) (tau_auto : F)
      → lt tau_suggest tau_auto ≡ true
      → (((decided gbm stage_c features tokens tau_auto).action ≡ auto)
          ↔ ((fl.le tau_auto (clamp01 gbm.max_prob) ≡ true) × (gbm_label gbm.label ≢ ti)))
        × (((decided gbm stage_c features tokens tau_auto).action ≡ abstain)
            ↔ ((decided gbm stage_c features tokens tau_auto).label ≡ ti))
  gbm_bands gbm stage_c features tokens tau_auto l =
      let p = clamp01 gbm.max_prob in
      let label = gbm_label gbm.label in
      elim (Bool-cases (same_label label ti || lt p tau_suggest)) [
        | inl low ↦
            let o = human_confirmed_hash_floor stage_c features tokens in
            let e : gbm_result gbm stage_c features tokens tau_auto ≡ promoted gbm p o =
              unfold gbm_result in rw low in
            let (n, a) = promoted-action gbm p tau_auto o stage_c features tokens refl l in
            rw e
              ((λ h. absurd (n h), λ h. absurd (h.1 (low_not_auto p tau_auto label l low h.0))), a)
        | inr high ↦ elim (Bool-cases (lt p tau_auto && boilerplate_head stage_c tokens)) [
          | inl plain ↦
              let e : gbm_result gbm stage_c features tokens tau_auto
                  ≡ abstained gbm p gbm_boilerplate_only_neighbor =
                unfold gbm_result in rw (high, plain) in
              rw e (unfold result in ((λ h. cc, λ h. ground arith), (λ h. refl, λ h. refl)))
          | inr shown ↦
              let o = pick_relevant stage_c label in
              let e : gbm_result gbm stage_c features tokens tau_auto ≡ supported_by gbm p label o =
                unfold gbm_result in rw (high, shown) in
              let (a, n, b) =
                supported-action gbm p tau_auto label o stage_c features (ground arith)
                  (ground arith) in
              rw e (
                (λ h. (a.0 h, λ t. ground arith), λ h. a.1 h.0),
                (λ h. absurd (n h), λ h. absurd (not_ti label (ground arith) (sym b ∙ h))),
              )
        ]
      ]
