-- ===== src/Retrain.antt =====
-- src/analyzer_ng/ml/retrain.py: when a trigger retrains, and the scheduler that coalesces triggers.
-- Times are seconds. What the retrainer asks of the label store, of the trainer and of the gate comes
-- as a `World`, the answers that they give at the call.
pub mod Throttle
pub mod Scheduler
mod Tests
use reportportal_analyzer_ng.Prelude.{
  ltb, if◌then◌else◌, head?, ℕ, ◌+◌, ◌-◌, ◌<◌, Bool, true, false, not, ◌&&◌, Option, none, some,
  List, [], ◌∷◌,
}

pub data Trigger : Type 0 where
  events nightly route : Trigger

pub data SkipCause : Type 0 where
  debounced below_threshold cold gate_rejected : SkipCause

pub data RetrainOutcome : Type 0 where
  shipped : (reason : Trigger) → (version n_events : ℕ) → RetrainOutcome
  skipped : (cause : SkipCause) → (n_events : ℕ) → RetrainOutcome

abbrev pub is_shipped : RetrainOutcome → Bool
is_shipped (shipped reason version n) = true
is_shipped (skipped cause n) = false

abbrev pub is_events : Trigger → Bool
is_events events = true
is_events _ = false

-- the answers at one call: the events after a time, what `train_gbm` returns (the number of its
-- events, or none for `TrainingError`), and the verdict of the gate (none where there is no gate)
pub record World : Type 0 where
  pub count_events_since : ℕ → ℕ
  pub trained : Option ℕ
  pub gate : Option Bool

pub record Config : Type 0 where
  pub threshold : ℕ
  pub min_interval : ℕ
  pub failed_cooldown : ℕ

-- the times of the models that shipped, the latest first, and the marker of the last failure
pub record Retrainer : Type 0 where
  pub ships : List ℕ
  pub last_failed_attempt_at : Option ℕ
  pub last_failed_was_cold : Bool

abbrev pub init : Retrainer
init = record { ships = []; last_failed_attempt_at = none; last_failed_was_cold = false }

abbrev pub last_shipped_at : Retrainer → Option ℕ
last_shipped_at r = head? r.ships

-- `at is not None and (now - at) < window`; the difference may be negative
abbrev pub within : Option ℕ → ℕ → ℕ → Bool
within none window now = false
within (some at) window now = ltb now (at + window)

abbrev pub in_cooldown : Config → Retrainer → ℕ → Bool
in_cooldown cfg r now = within r.last_failed_attempt_at cfg.failed_cooldown now

-- fewer new events than the threshold since the last model
abbrev pub too_few : Config → World → Option ℕ → Bool
too_few cfg world none = false
too_few cfg world (some shipped_at) = ltb (world.count_events_since shipped_at) cfg.threshold

abbrev pub rejected : Option Bool → Bool
rejected none = false
rejected (some verdict) = not verdict

-- the training that succeeded, of some events, or failed
abbrev pub attempted :
    World → Trigger → ℕ → Retrainer → Option ℕ → Option (Retrainer × RetrainOutcome)
attempted world reason now r none = none
attempted world reason now r (some n) = some (
    if rejected world.gate
    then (r, skipped gate_rejected n)
    else (record r { ships = now ∷ r.ships }, shipped reason now n))

-- none where it raises `TrainingError`
pub attempt : World → Trigger → ℕ → Retrainer → Option (Retrainer × RetrainOutcome)
attempt world reason now r = attempted world reason now r world.trained

abbrev pub settle : ℕ → Retrainer → Option (Retrainer × RetrainOutcome) → Retrainer × RetrainOutcome
settle now r none =
    (record r { last_failed_attempt_at = some now; last_failed_was_cold = true }, skipped cold 0)
settle now r (some (r', outcome)) =
    if is_shipped outcome
    then (record r' { last_failed_attempt_at = none }, outcome)
    else (record r' { last_failed_attempt_at = some now; last_failed_was_cold = false }, outcome)

pub maybe_retrain : Config → World → Trigger → ℕ → Retrainer → Retrainer × RetrainOutcome
unfolding attempt
maybe_retrain cfg world reason now r =
    if within (last_shipped_at r) cfg.min_interval now
    then (r, skipped debounced 0)
    else if in_cooldown cfg r now && not (r.last_failed_was_cold && not (is_events reason))
    then (r, skipped debounced 0)
    else if is_events reason && too_few cfg world (last_shipped_at r)
    then (r, skipped below_threshold 0)
    else settle now r (attempt world reason now r)

abbrev forced : Retrainer → Option (Retrainer × RetrainOutcome) → Retrainer × RetrainOutcome
forced r none = (r, skipped cold 0)
forced r (some result) = result

-- a retrain that no debounce holds back
pub retrain : World → Trigger → ℕ → Retrainer → Retrainer × RetrainOutcome
unfolding attempt
retrain world reason now r = forced r (attempt world reason now r)

-- a call of `maybe_retrain` at a time, and a history of them
pub record Call : Type 0 where
  pub reason : Trigger
  pub now : ℕ
  pub world : World

pub run_calls : Config → Retrainer → List Call → Retrainer
unfolding maybe_retrain
run_calls cfg r [] = r
run_calls cfg r (c ∷ cs) = run_calls cfg (maybe_retrain cfg c.world c.reason c.now r).0 cs
