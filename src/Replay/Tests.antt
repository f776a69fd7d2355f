-- ===== src/Replay/Tests.antt =====
-- A replay of sixty-three events with a model that predicts the snapshot's own label.
use reportportal_analyzer_ng.Prelude.{
  length, All, ℕ, zero, suc, ◌+◌, ◌*◌, ◌/◌, min, ◌≡◌, refl, ◌↔◌, true, false, Option, none, some,
  List, [], ◌∷◌, ◌++◌, map,
}
use reportportal_analyzer_ng.Floats.{fixed_point}
use reportportal_analyzer_ng.Text.{codes}
use reportportal_analyzer_ng.Decision.Types.{Label, pb, ab, base_label, base}
use reportportal_analyzer_ng.Replay.Events.{
  Event, is_usable, put, latest_of, insert, sorted, usable_events, split_at, chronological_split,
}
use reportportal_analyzer_ng.Replay.Events.Latest.{
  IsSelection, usable_events-IsSelection, IsEarlier, chronological_split-IsOrdered,
}
use reportportal_analyzer_ng.Replay.Report.{
  Prediction, EvalReport, Scoring, prf, ece_from, ece_of, report_from_predictions, score_events,
  evaluate,
}
use reportportal_analyzer_ng.Replay.Gate.{
  active_calibration_degraded, passes_gate, fit_scoring_calibrator, run_gate, ModelStore,
  load_active_model, ship_gate,
}
use reportportal_analyzer_ng.Replay.Gate.Verdict.{IsShippable, passes_gate-IsShippable}
use reportportal_analyzer_ng.Replay.Gate.Ship.{IsReplayed, run_gate-IsReplayed, ship_gate-audits}

abbrev event : ℕ → ℕ → Event Label
event item_id ts = record {
  project_id = some 1;
  item_id = some item_id;
  ts = some ts;
  new_label = some (codes "pb001");
  features = some pb;
}

-- the fields are read once, so the numbers stay small
events : ℕ → List (Event Label)
events zero = []
events (suc n) = event n n ∷ events n

abbrev three : List (Event Label)
three = event 2 30 ∷ event 1 10 ∷ event 2 20 ∷ []

abbrev sum : List ℕ → ℕ
sum [] = 0
sum (x ∷ xs) = x + sum xs

abbrev scoring : Scoring ℕ Label Unit Unit
scoring = record {
  predict_label = λ m v. (v, 8000);
  calibrate = λ k raw. raw;
  fit = λ raw outcomes. tt;
  total = sum;
  mean = λ xs. sum xs / 4;
}

abbrev cut : ℕ → ℕ
cut n = n * 8 / 10

abbrev train_fn : List (Event Label) → Option (Unit {0})
train_fn train = some tt

abbrev predictions : List (Prediction ℕ)
predictions =
    record { actual = pb; pred = pb; p_star = 8000 }
    ∷ record { actual = ab; pred = pb; p_star = 3000 }
    ∷ []

abbrev store : ModelStore ℕ Unit Unit
store = record { active_gbm = none; active_calibrators = []; rejected = []; saves = true }

abbrev report : EvalReport ℕ
report = record {
  n_eval = 10;
  per_label = [];
  macro_f1 = 8000;
  abstain_rate = 1000;
  acceptance_rate = 9000;
  auto_band_precision = some 9500;
  auto_band_support = 5;
  ece = 300;
}

usable_events-IsSelection_example : IsSelection three (usable_events three)
usable_events-IsSelection_example = usable_events-IsSelection three

chronological_split-IsOrdered_example :
    let events = usable_events three in
    let (train, eval) = chronological_split cut events in
    (length train ≡ min (cut (length events)) (length events))
    × (train ++ eval ≡ events)
    × All (λ t. All (λ e. IsEarlier t e) eval) train
chronological_split-IsOrdered_example = chronological_split-IsOrdered cut three

passes_gate-IsShippable_example :
    ((passes_gate report (some report)).ship ≡ true) ↔ IsShippable report report
passes_gate-IsShippable_example = passes_gate-IsShippable report report

run_gate-IsReplayed_example :
    (candidate : Unit) × IsReplayed scoring cut train_fn (events 63) tt (some none) candidate
unfolding run_gate chronological_split usable_events latest_of sorted insert put is_usable split_at
    evaluate score_events report_from_predictions prf ece_of ece_from passes_gate
    fit_scoring_calibrator active_calibration_degraded base base_label events
run_gate-IsReplayed_example =
    run_gate-IsReplayed scoring cut train_fn (events 63) tt (some none) refl

ship_gate-audits_example :
    ((ship_gate scoring cut train_fn 6 tt three 100 store).0.active_gbm ≡ none)
    × ((ship_gate scoring cut train_fn 6 tt three 100 store).0.active_calibrators ≡ [])
    × ((ship_gate scoring cut train_fn 6 tt three 100 store).1 ≡ true
        → (ship_gate scoring cut train_fn 6 tt three 100 store).0 ≡ store)
    × ((ship_gate scoring cut train_fn 6 tt three 100 store).1 ≡ false
        → store.saves ≡ true
        → map (λ r. r.candidate) (ship_gate scoring cut train_fn 6 tt three 100 store).0.rejected
          ≡ map (λ r. r.candidate) store.rejected ++ tt ∷ [])
    × (load_active_model 6 store ≡ none
        → (ship_gate scoring cut train_fn 6 tt three 100 store).1 ≡ true)
ship_gate-audits_example = ship_gate-audits scoring cut train_fn 6 tt three 100 store
