-- ===== src/Replay/Report.antt =====
-- The report of src/analyzer_ng/ml/eval.py on one slice of events. `total` and `mean` are Python's and
-- NumPy's sums of floats over a list.
pub mod Bands
use reportportal_analyzer_ng.Prelude.{
  ◌==◌, if◌then◌else◌, length, keep, is_empty, ℕ, zero, suc, ◌+◌, Bool, not, ◌&&◌, ◌||◌, Option,
  none, some, List, [], ◌∷◌, map,
}
use reportportal_analyzer_ng.Floats.{Floats, lt, same, fzero}
use reportportal_analyzer_ng.Decision.Types.{Label, same_label, base_labels, base}
use reportportal_analyzer_ng.Decision.Gbm.{tau_suggest}
use reportportal_analyzer_ng.Replay.Events.{Event}

abbrev pub ece_bins : ℕ
ece_bins = 10

pub record LabelPrf (F : Type 0) : Type 0 where
  pub precision : F
  pub recall : F
  pub f1 : F
  pub support : ℕ

pub record Prediction (F : Type 0) : Type 0 where
  pub actual : Label
  pub pred : Label
  pub p_star : F

pub record EvalReport (F : Type 0) : Type 0 where
  pub n_eval : ℕ
  pub per_label : List (Label × LabelPrf F)
  pub macro_f1 : F
  pub abstain_rate : F
  pub acceptance_rate : F
  pub auto_band_precision : Option F
  pub auto_band_support : ℕ
  pub ece : F

-- what the reports call of a model `M` over snapshots `V`, of a calibrator `K`, and of float sums
pub record Scoring (F V M K : Type 0) : Type 0 where
  pub predict_label : M → V → Label × F
  pub calibrate : K → F → F
  pub fit : List F → List Bool → K
  pub total : List F → F
  pub mean : List F → F

module _ {F : Type 0} ⦃fl : Floats F⦄ where
  abbrev pub tau_auto : F
  tau_auto = fl.ratio 75 100

  abbrev pub correct : Prediction F → Bool
  correct p = same_label p.actual p.pred

  abbrev pub count : (Prediction F → Bool) → List (Prediction F) → ℕ
  count p preds = length (keep p preds)

  -- a quotient of counts, 0 where nothing is counted
  abbrev quotient : ℕ → ℕ → F
  quotient n d = if d == 0 then fzero else fl.ratio n d

  unfoldable pub prf : List (Prediction F) → Label → LabelPrf F
  prf preds label =
      let tp = count (λ p. same_label p.pred label && same_label p.actual label) preds in
      let fp = count (λ p. same_label p.pred label && not (same_label p.actual label)) preds in
      let fn = count (λ p. not (same_label p.pred label) && same_label p.actual label) preds in
      let prec = quotient tp (tp + fp) in
      let rec = quotient tp (tp + fn) in
      record {
        precision = prec;
        recall = rec;
        f1 =
            if same (fl.add prec rec) fzero
            then fzero
            else fl.div (fl.mul (fl.mul (fl.ratio 2 1) prec) rec) (fl.add prec rec);
        support = tp + fn;
      }

  abbrev distance : F → F → F
  distance a b = if fl.le b a then fl.sub a b else fl.sub b a

  abbrev in_bin : ℕ → Prediction F → Bool
  in_bin b p =
      fl.le (fl.ratio b ece_bins) p.p_star && lt p.p_star (fl.ratio (b + 1) ece_bins)
      || b + 1 == ece_bins && same p.p_star (fl.ratio (b + 1) ece_bins)

  abbrev bin_error : (List F → F) → ℕ → List (Prediction F) → F → F
  bin_error total n [] sum = sum
  bin_error total n (p ∷ ps) sum =
      let size = length (p ∷ ps) in
      let conf = fl.div (total (map (λ q. q.p_star) (p ∷ ps))) (fl.ratio size 1) in
      let acc = fl.ratio (count correct (p ∷ ps)) size in
      fl.add sum (fl.mul (fl.ratio size n) (distance acc conf))

  -- the bins `b`, `b + 1`, … as many as the first argument says
  unfoldable pub ece_from : (List F → F) → ℕ → ℕ → List (Prediction F) → F → F
  ece_from total zero b preds sum = sum
  ece_from total (suc left) b preds sum =
      ece_from total left (b + 1) preds (bin_error total (length preds) (keep (in_bin b) preds) sum)

  unfoldable pub ece_of : (List F → F) → List (Prediction F) → F
  unfolding ece_from
  ece_of total preds = if is_empty preds then fzero else ece_from total ece_bins 0 preds fzero

  abbrev pub abstains : Prediction F → Bool
  abstains p = lt p.p_star tau_suggest

  abbrev pub offers : Prediction F → Bool
  offers p = fl.le tau_suggest p.p_star

  abbrev pub applies : Prediction F → Bool
  applies p = fl.le tau_auto p.p_star

  module _ {V M K : Type 0} where
    unfoldable pub report_from_predictions : Scoring F V M K → List (Prediction F) → EvalReport F
    unfolding prf ece_of
    report_from_predictions sc preds =
        let n = length preds in
        let per_label = map (λ l. (l, prf preds l)) base_labels in
        let auto_band = keep applies preds in
        let offered = keep offers preds in
        record {
          n_eval = n;
          per_label = per_label;
          macro_f1 = if n == 0 then fzero else sc.mean (map (λ e. e.1.f1) per_label);
          abstain_rate = quotient (count abstains preds) n;
          acceptance_rate = quotient (count correct offered) (length offered);
          auto_band_precision =
              if is_empty auto_band
              then none
              else some (fl.ratio (count correct auto_band) (length auto_band));
          auto_band_support = length auto_band;
          ece = ece_of sc.total preds;
        }

    abbrev calibrated : Scoring F V M K → Option K → F → F
    calibrated sc none raw = raw
    calibrated sc (some k) raw = sc.calibrate k raw

    -- A usable event has a snapshot; an event without one, for which the code would raise, is left out.
    abbrev scored :
        Scoring F V M K
        → M
        → Option K
        → Label
        → Option V
        → List (Prediction F)
        → List (Prediction F)
    scored sc model k actual none rest = rest
    scored sc model k actual (some v) rest =
        let (label, raw) = sc.predict_label model v in
        record { actual = actual; pred = label; p_star = calibrated sc k raw } ∷ rest

    unfoldable pub score_events :
        Scoring F V M K → M → List (Event V) → Option K → List (Prediction F)
    score_events sc model [] k = []
    score_events sc model (e ∷ es) k =
        scored sc model k (base e.new_label) e.features (score_events sc model es k)

    unfoldable pub evaluate : Scoring F V M K → M → List (Event V) → Option K → EvalReport F
    unfolding score_events
    evaluate sc model events k = report_from_predictions sc (score_events sc model events k)
