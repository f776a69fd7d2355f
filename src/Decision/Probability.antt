-- ===== src/Decision/Probability.antt =====
-- `calibrated_label_prob` of src/analyzer_ng/core/decision.py: the calibrated probability of one
-- base group, from the raw distribution of a decision.
use mathlib.Core.Path.{subst}
use reportportal_analyzer_ng.Prelude.{
  if◌then◌else◌, ◌≡◌, refl, sym, true, Option, none, some, List, [], ◌∷◌, arith,
}
use reportportal_analyzer_ng.Floats.{Floats, lt, fzero, fone, clamp01, clamp01_bounds}
use reportportal_analyzer_ng.Decision.Types.{
  Label, pb, ab, si, nd, ti, unknown, same_label, DecisionResult,
}

same_label_refl : (l : Label) → same_label l l ≡ true
same_label_refl pb = refl
same_label_refl ab = refl
same_label_refl si = refl
same_label_refl nd = refl
same_label_refl ti = refl
same_label_refl unknown = refl

module _ {F : Type 0} ⦃fl : Floats F⦄ where
  -- `probs.get(group)`
  abbrev pub prob_of : List (Label × F) → Label → Option F
  prob_of [] group = none
  prob_of ((g, p) ∷ rest) group =
      let later = prob_of rest group in if same_label g group then some p else later

  -- the first entry of the greatest probability
  unfoldable pub top_entry : Label × F → List (Label × F) → Label × F
  top_entry best [] = best
  top_entry best (e ∷ es) = top_entry (if lt best.1 e.1 then e else best) es

  -- the value of one group, where the distribution has it
  abbrev pub share : F → Label × F → Label → F → F
  share calibrated top group p =
      let p_star = clamp01 calibrated in
      if same_label group top.0
      then p_star
      else if fl.le (fl.sub fone top.1) fzero
      then fzero
      else clamp01 (fl.div (fl.mul p (fl.sub fone p_star)) (fl.sub fone top.1))

  abbrev pub rescaled : F → Label × F → Label → Option F → Option F
  rescaled calibrated top group none = none
  rescaled calibrated top group (some p) =
      if fl.le top.1 fzero then none else some (share calibrated top group p)

  abbrev pub calibrated_prob : Option F → List (Label × F) → Label → Option F
  calibrated_prob none probs group = none
  calibrated_prob (some calibrated) [] group = none
  calibrated_prob (some calibrated) (e ∷ es) group =
      rescaled calibrated (top_entry e es) group (prob_of (e ∷ es) group)

  unfoldable pub calibrated_label_prob : {C : Type 0} → DecisionResult F C → Label → Option F
  calibrated_label_prob decision group =
      calibrated_prob decision.calibrated_max_prob decision.probs group

  share-bounds :
      (calibrated : F) (top : Label × F) (group : Label) (p : F)
      → (fl.le fzero (share calibrated top group p) ≡ true)
        × (fl.le (share calibrated top group p) fone ≡ true)
  share-bounds calibrated top group p = ground (
    arith,
    clamp01_bounds calibrated,
    clamp01_bounds (fl.div (fl.mul p (fl.sub fone (clamp01 calibrated))) (fl.sub fone top.1)),
    fl.le_refl fzero,
    fl.zero_le_one,
  )

  rescaled-bounds :
      (calibrated : F) (top : Label × F) (group : Label) (o : Option F) (q : F)
      → rescaled calibrated top group o ≡ some q
      → (fl.le fzero q ≡ true) × (fl.le q fone ≡ true)
  rescaled-bounds calibrated top group none q h = cc
  rescaled-bounds calibrated top group (some p) q h =
      let e : share calibrated top group p ≡ q = ground arith in
      rw (sym e) (share-bounds calibrated top group p)

  calibrated_prob-bounds :
      (o : Option F) (probs : List (Label × F)) (group : Label) (q : F)
      → calibrated_prob o probs group ≡ some q
      → (fl.le fzero q ≡ true) × (fl.le q fone ≡ true)
  calibrated_prob-bounds none probs group q h = cc
  calibrated_prob-bounds (some c) [] group q h = cc
  calibrated_prob-bounds (some c) (e ∷ es) group q h =
      rescaled-bounds c (top_entry e es) group (prob_of (e ∷ es) group) q h

  -- A calibrated probability, where there is one, lies between 0 and 1.
  pub calibrated_label_prob-bounds :
      {C : Type 0} (decision : DecisionResult F C) (group : Label) (q : F)
      → calibrated_label_prob decision group ≡ some q
      → (fl.le fzero q ≡ true) × (fl.le q fone ≡ true)
  unfolding calibrated_label_prob
  calibrated_label_prob-bounds decision group q h =
      calibrated_prob-bounds decision.calibrated_max_prob decision.probs group q h

  rescaled-top :
      (calibrated : F) (top : Label × F) (o : Option F) (q : F)
      → rescaled calibrated top top.0 o ≡ some q
      → q ≡ clamp01 calibrated
  rescaled-top calibrated top none q h = cc
  rescaled-top calibrated top (some p) q h = ground (arith, same_label_refl top.0)

  calibrated_of :
      (o : Option F) (probs : List (Label × F)) (calibrated : F) (e : Label × F)
      (es : List (Label × F)) (q : F)
      → o ≡ some calibrated
      → probs ≡ e ∷ es
      → calibrated_prob o probs (top_entry e es).0 ≡ some q
      → rescaled calibrated
          (top_entry e es)
          (top_entry e es).0
          (prob_of (e ∷ es) (top_entry e es).0)
        ≡ some q
  calibrated_of o probs calibrated e es q c p h =
      subst (λ z. calibrated_prob (some calibrated) z (top_entry e es).0 ≡ some q) p
        (subst (λ z. calibrated_prob z probs (top_entry e es).0 ≡ some q) c h)

  -- The calibrated probability, where there is one, of the group of the greatest raw probability
  -- is the clamped calibrated probability of the decision.
  pub calibrated_label_prob-top :
      {C : Type 0} (decision : DecisionResult F C) (e : Label × F) (es : List (Label × F))
      (calibrated q : F)
      → decision.probs ≡ e ∷ es
      → decision.calibrated_max_prob ≡ some calibrated
      → calibrated_label_prob decision (top_entry e es).0 ≡ some q
      → q ≡ clamp01 calibrated
  unfolding calibrated_label_prob
  calibrated_label_prob-top decision e es calibrated q p c h =
      rescaled-top calibrated (top_entry e es) (prob_of (e ∷ es) (top_entry e es).0) q
        (calibrated_of decision.calibrated_max_prob decision.probs calibrated e es q c p h)
