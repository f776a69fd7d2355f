-- ===== src/Replay/Report/Bands.antt =====
-- How the bands of a report divide the predictions, and what its counts add up to.
use reportportal_analyzer_ng.Prelude.{
  if◌then◌else◌, length, keep, is_empty, ◌+◌, ◌≤◌, ◌≡◌, refl, ◌↔◌, true, not, ◌&&◌, none, some,
  List, [], ◌∷◌, arith,
}
use reportportal_analyzer_ng.Floats.{Floats}
use reportportal_analyzer_ng.Decision.Types.{Label, same_label}
use reportportal_analyzer_ng.Decision.Gbm.{tau_suggest}
use reportportal_analyzer_ng.Replay.Report.{
  Prediction, Scoring, tau_auto, correct, count, prf, abstains, offers, applies,
  report_from_predictions,
}

module _ {F : Type 0} ⦃fl : Floats F⦄ where
  abstains-offers :
      (preds : List (Prediction F)) → count abstains preds + count offers preds ≡ length preds
  abstains-offers [] = refl
  abstains-offers (p ∷ ps) = ground (arith, abstains-offers ps)

  applies-le :
      (preds : List (Prediction F))
      → fl.le (tau_suggest {F = F}) tau_auto ≡ true
      → count applies preds ≤ count offers preds
  applies-le [] h = omega arith
  applies-le (p ∷ ps) h =
      ground (arith, applies-le ps h, fl.le_trans tau_suggest tau_auto p.p_star h)

  -- the predictions of one label are its true positives and its false negatives
  support_split :
      (preds : List (Prediction F)) (l : Label)
      → count (λ p. same_label p.pred l && same_label p.actual l) preds
          + count (λ p. not (same_label p.pred l) && same_label p.actual l) preds
        ≡ count (λ p. same_label p.actual l) preds
  support_split [] l = refl
  support_split (p ∷ ps) l = ground (arith, support_split ps l)

  -- The support of a label is the number of predictions of which it is the truth.
  pub prf-support :
      (preds : List (Prediction F)) (l : Label)
      → (prf preds l).support ≡ count (λ p. same_label p.actual l) preds
  unfolding prf
  prf-support preds l = support_split preds l

  precision_none :
      (l : List (Prediction F)) (q : F)
      → ((if is_empty l then none else some q) ≡ none) ↔ (length l ≡ 0)
  precision_none [] q = (λ h. refl, λ h. refl)
  precision_none (p ∷ ps) q = (λ h. cc, λ h. ground arith)

  module _ {V M K : Type 0} where
    -- With a suggest threshold of at most the auto threshold, the sizes of the automatic band and
    -- of the abstentions of a report add up to no more than the number of its predictions. The
    -- precision of the automatic band is absent exactly if the band is empty.
    pub report-bands :
        (sc : Scoring F V M K) (preds : List (Prediction F))
        → fl.le (tau_suggest {F = F}) tau_auto ≡ true
        → ((report_from_predictions sc preds).auto_band_support + count abstains preds
            ≤ (report_from_predictions sc preds).n_eval)
          × (((report_from_predictions sc preds).auto_band_precision ≡ none)
              ↔ ((report_from_predictions sc preds).auto_band_support ≡ 0))
    unfolding report_from_predictions
    report-bands sc preds h = (
      ground (arith, abstains-offers preds, applies-le preds h),
      precision_none (keep applies preds)
          (fl.ratio (count correct (keep applies preds)) (length (keep applies preds))),
    )
