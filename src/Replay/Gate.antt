-- ===== src/Replay/Gate.antt =====
-- src/analyzer_ng/ml/gate.py: whether a retrained candidate replaces the active model. The training
-- function is an argument in the source too; the fitted table and the prediction are in `Scoring`.
pub mod Verdict
pub mod Ship
use reportportal_analyzer_ng.Prelude.{
  ltb, ◌==◌, if◌then◌else◌, length, any, is_empty, ℕ, Bool, true, false, not, ◌&&◌, ◌||◌, Option,
  none, some, List, [], ◌∷◌, ◌++◌, map,
}
use reportportal_analyzer_ng.Floats.{Floats, lt, fmax}
use reportportal_analyzer_ng.Replay.Events.{Event, usable_events, chronological_split}
use reportportal_analyzer_ng.Replay.Report.{EvalReport, Scoring, correct, score_events, evaluate}

pub data Reason : Type 0 where
  macro_f1 auto_band_precision abstain_rate no_eval_data candidate_cold : Reason

pub record GateResult (F : Type 0) : Type 0 where
  pub ship : Bool
  pub reasons : List Reason
  pub candidate : Option (EvalReport F)
  pub active : Option (EvalReport F)
  pub active_calibration_degraded : Option Bool

abbrev pub gate_calib_min : ℕ
gate_calib_min = 50

abbrev pub gbm_min_events : ℕ
gbm_min_events = 50

abbrev is_none {ℓ} : {A : Type ℓ} → Option A → Bool
is_none none = true
is_none (some a) = false

abbrev both_outcomes : List Bool → Bool
both_outcomes cs = any (λ c. c) cs && any not cs

-- `[name]` where the condition fails
abbrev failed : Bool → Reason → List Reason
failed fails name = if fails then name ∷ [] else []

module _ {F : Type 0} ⦃fl : Floats F⦄ where
  abbrev pub auto_band_floor : F
  auto_band_floor = fl.mul (fl.ratio 9 10) (fl.ratio 95 100)

  abbrev pub gate_abstain_slack : F
  gate_abstain_slack = fl.ratio 5 100

  unfoldable pub active_calibration_degraded : EvalReport F → EvalReport F → Bool
  active_calibration_degraded candidate active =
      lt (fl.ratio 15 100) active.ece && fl.le candidate.ece (fl.sub active.ece (fl.ratio 5 100))

  abbrev pub f1_slack : EvalReport F → EvalReport F → F
  f1_slack candidate active =
      if active_calibration_degraded candidate active then fl.ratio 5 100 else fl.ratio 5 1000

  abbrev pub target : Option F → F
  target none = auto_band_floor
  target (some active_ap) = fmax active_ap auto_band_floor

  abbrev pub imprecise : Option F → Option F → Bool
  imprecise none active_ap = false
  imprecise (some p) active_ap = lt p (target active_ap)

  abbrev pub failures : EvalReport F → EvalReport F → List Reason
  failures candidate active =
      failed (lt candidate.macro_f1 (fl.sub active.macro_f1 (f1_slack candidate active))) macro_f1
      ++ failed (imprecise candidate.auto_band_precision active.auto_band_precision)
          auto_band_precision
      ++ failed (lt (fl.add active.abstain_rate gate_abstain_slack) candidate.abstain_rate)
          abstain_rate

  unfoldable pub passes_gate : EvalReport F → Option (EvalReport F) → GateResult F
  unfolding active_calibration_degraded
  passes_gate candidate none = record {
    ship = true;
    reasons = [];
    candidate = some candidate;
    active = none;
    active_calibration_degraded = none;
  }
  passes_gate candidate (some active) =
      let reasons = failures candidate active in
      record {
        ship = is_empty reasons;
        reasons = reasons;
        candidate = some candidate;
        active = some active;
        active_calibration_degraded = some (active_calibration_degraded candidate active);
      }

  -- an early verdict: only a cold store ships
  abbrev unless_active : {M : Type 0} → Option M → Reason → GateResult F
  unless_active active reason = record {
    ship = is_none active;
    reasons = failed (not (is_none active)) reason;
    candidate = none;
    active = none;
    active_calibration_degraded = none;
  }

  module _ {V M K : Type 0} where
    unfoldable pub fit_scoring_calibrator : Scoring F V M K → M → List (Event V) → Option K
    fit_scoring_calibrator sc model train_events =
        let preds = score_events sc model train_events none in
        let outcomes = map correct preds in
        if ltb (length train_events) gate_calib_min
        then none
        else if both_outcomes outcomes
        then some (sc.fit (map (λ p. p.p_star) preds) outcomes)
        else none

    -- `active_calibrator`: none is the sentinel, to fit on the train slice
    abbrev pub active_scoring : Scoring F V M K → M → List (Event V) → Option (Option K) → Option K
    active_scoring sc active train_events none = fit_scoring_calibrator sc active train_events
    active_scoring sc active train_events (some shipped) = shipped

    abbrev compared :
        Scoring F V M K
        → M
        → List (Event V)
        → List (Event V)
        → Option (Option K)
        → Option M
        → GateResult F
    compared sc candidate train_events eval_events active_calibrator none =
        passes_gate
          (evaluate sc candidate eval_events (fit_scoring_calibrator sc candidate train_events))
          none
    compared sc candidate train_events eval_events active_calibrator (some active) =
        passes_gate
          (evaluate sc candidate eval_events (fit_scoring_calibrator sc candidate train_events))
          (some (
            evaluate sc active eval_events
              (active_scoring sc active train_events active_calibrator)))

    abbrev trained :
        Scoring F V M K
        → Option M
        → List (Event V)
        → List (Event V)
        → Option (Option K)
        → Option M
        → GateResult F
    trained sc none train_events eval_events active_calibrator active =
        unless_active active candidate_cold
    trained sc (some candidate) train_events eval_events active_calibrator active =
        compared sc candidate train_events eval_events active_calibrator active

    -- `train_fn` answers none where it raises `TrainingError`
    unfoldable pub run_gate :
        Scoring F V M K
        → (ℕ → ℕ)
        → (List (Event V) → Option M)
        → List (Event V)
        → Option M
        → Option (Option K)
        → GateResult F
    unfolding passes_gate fit_scoring_calibrator
    run_gate sc cut train_fn rows active active_calibrator =
        let (train_events, eval_events) = chronological_split cut (usable_events rows) in
        if is_empty eval_events || ltb (length train_events) gbm_min_events
        then unless_active active no_eval_data
        else trained sc (train_fn train_events) train_events eval_events active_calibrator active

-- The store that the gate reads and writes: the active artifacts, with the schema version and scope
-- of each, and the audit rows of rejected candidates.
pub record Artifact (A : Type 0) : Type 0 where
  pub project_id : Option ℕ
  pub feature_schema_ver : ℕ
  pub blob : A

pub record Rejected (F M : Type 0) : Type 0 where
  pub candidate : M
  pub reasons : List Reason
  pub eval : Option (EvalReport F)
  pub active_eval : Option (EvalReport F)
  pub evaluated_at : ℕ

-- `saves` says whether `save` is there and does not raise
pub record ModelStore (F M K : Type 0) : Type 0 where
  pub active_gbm : Option (Artifact M)
  pub active_calibrators : List (Artifact K)
  pub rejected : List (Rejected F M)
  pub saves : Bool

module _ {A : Type 0} where
  abbrev current : ℕ → Option (Artifact A) → Option A
  current schema none = none
  current schema (some rec) = if rec.feature_schema_ver == schema then some rec.blob else none

  -- the first install-wide one of the schema
  pub first_install : ℕ → List (Artifact A) → Option A
  first_install schema [] = none
  first_install schema (rec ∷ recs) =
      let later = first_install schema recs in
      if is_none rec.project_id && rec.feature_schema_ver == schema then some rec.blob else later

module _ {M K : Type 0} where
  -- the shipped calibrator of an active model, or the sentinel
  abbrev pub active_cal : Option M → Option K → Option (Option K)
  active_cal none shipped = none
  active_cal (some model) none = none
  active_cal (some model) (some k) = some (some k)

module _ {F M K : Type 0} where
  abbrev pub load_active_model : ℕ → ModelStore F M K → Option M
  load_active_model schema store = current schema store.active_gbm

  abbrev pub load_active_install_calibrator : ℕ → ModelStore F M K → Option K
  load_active_install_calibrator schema store = first_install schema store.active_calibrators

  abbrev pub persist_rejected : ModelStore F M K → M → GateResult F → ℕ → ModelStore F M K
  persist_rejected store candidate result now =
      let row : Rejected F M = record {
        candidate = candidate;
        reasons = result.reasons;
        eval = result.candidate;
        active_eval = result.active;
        evaluated_at = now;
      } in
      if store.saves then record store { rejected = store.rejected ++ row ∷ [] } else store

  module _ ⦃fl : Floats F⦄ {V : Type 0} where
    abbrev pub gate_verdict :
        Scoring F V M K
        → (ℕ → ℕ)
        → (List (Event V) → Option M)
        → ℕ
        → ModelStore F M K
        → List (Event V)
        → GateResult F
    gate_verdict sc cut train_fn schema store rows =
        let active = load_active_model schema store in
        run_gate sc cut train_fn rows active
          (active_cal active (load_active_install_calibrator schema store))

    -- the closure that `make_ship_gate` returns
    pub ship_gate :
        Scoring F V M K
        → (ℕ → ℕ)
        → (List (Event V) → Option M)
        → ℕ
        → M
        → List (Event V)
        → ℕ
        → ModelStore F M K
        → ModelStore F M K × Bool
    unfolding first_install run_gate
    ship_gate sc cut train_fn schema candidate rows now store =
        let result = gate_verdict sc cut train_fn schema store rows in
        if result.ship then (store, true) else (persist_rejected store candidate result now, false)
