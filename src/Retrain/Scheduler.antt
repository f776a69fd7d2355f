-- ===== src/Retrain/Scheduler.antt =====
-- The single-flight scheduler of src/analyzer_ng/ml/retrain.py: its critical sections as steps, which
-- callers and the worker thread interleave.
use mathlib.Core.Path.{subst}
use reportportal_analyzer_ng.Prelude.{
  ltb, leb, if◌then◌else◌, Bool-cases, length, any, length-append, ℕ, ◌+◌, ◌-◌, ◌*◌, ◌%◌, ◌≤◌, ◌<◌,
  ◌≡◌, refl, sym, inl, inr, Bool, true, false, not, ◌||◌, Option, none, some, List, [], ◌∷◌, ◌++◌,
  arith,
}
use reportportal_analyzer_ng.Retrain.{Trigger, events, nightly, route, RetrainOutcome}

abbrev pub reason_rank : Trigger → ℕ
reason_rank events = 0
reason_rank nightly = 1
reason_rank route = 2

pub record Scheduler : Type 0 where
  pub pending : Option Trigger
  pub running : Bool
  pub stopping : Bool
  pub outcomes : List RetrainOutcome  -- the oldest first, at most 100

abbrev pub idle : Scheduler
idle = record { pending = none; running = false; stopping = false; outcomes = [] }

abbrev pub outcomes_max : ℕ
outcomes_max = 100

-- the request that is kept of the one pending and a new one
abbrev pub coalesce : Option Trigger → Trigger → Option Trigger
coalesce none reason = some reason
coalesce (some pending) reason =
    if ltb (reason_rank pending) (reason_rank reason) then some reason else some pending

pub request : Trigger → Scheduler → Scheduler
request reason s = record s { pending = coalesce s.pending reason }

-- the head of the worker's loop, which waits while there is nothing to do
abbrev taken : Scheduler → Option Trigger → Scheduler × Option Trigger
taken s none = (s, none)
taken s (some reason) = (record s { pending = none; running = true }, some reason)

pub take : Scheduler → Scheduler × Option Trigger
take s = if s.stopping || s.running then (s, none) else taken s s.pending

abbrev drop_oldest : List RetrainOutcome → List RetrainOutcome
drop_oldest [] = []
drop_oldest (o ∷ os) = os

-- a deque of bounded length
pub append : List RetrainOutcome → RetrainOutcome → List RetrainOutcome
append os o = if ltb (length os) outcomes_max then os ++ o ∷ [] else drop_oldest os ++ o ∷ []

-- the end of a retrain, with its outcome, or none where it raised
abbrev recorded : List RetrainOutcome → Option RetrainOutcome → List RetrainOutcome
recorded os none = os
recorded os (some o) = append os o

pub finish : Option RetrainOutcome → Scheduler → Scheduler
unfolding append
finish o s = record s { outcomes = recorded s.outcomes o; running = false }

pub stop : Scheduler → Scheduler
stop s = record s { stopping = true }

abbrev is_there : Option Trigger → Bool
is_there none = false
is_there (some t) = true

-- what `wait_idle` waits for
pub is_idle : Scheduler → Bool
is_idle s = not (is_there s.pending || s.running)

pub data Op : Type 0 where
  requested : Trigger → Op
  took : Op
  finished : Option RetrainOutcome → Op
  stopped : Op

pub step : Op → Scheduler → Scheduler
unfolding request take finish stop
step (requested t) s = request t s
step took s = (take s).0
step (finished o) s = finish o s
step stopped s = stop s

pub run : List Op → Scheduler → Scheduler
unfolding step
run [] s = s
run (op ∷ ops) s = run ops (step op s)

abbrev takes : Op → Bool
takes took = true
takes _ = false

-- a pending request that ranks at least so high
abbrev pub IsOwed : ℕ → Option Trigger → Type 0
IsOwed rank none = ⊥
IsOwed rank (some t) = rank ≤ reason_rank t

request-IsOwed : (t : Trigger) (o : Option Trigger) → IsOwed (reason_rank t) (coalesce o t)
request-IsOwed t none = omega arith
request-IsOwed t (some p) = elim (Bool-cases (ltb (reason_rank p) (reason_rank t))) [
  | inl b ↦ rw b (omega arith)
  | inr b ↦ rw b (ground arith)
]

coalesce-IsOwed : (n : ℕ) (t : Trigger) (o : Option Trigger) → IsOwed n o → IsOwed n (coalesce o t)
coalesce-IsOwed n t none h = absurd h
coalesce-IsOwed n t (some p) h = elim (Bool-cases (ltb (reason_rank p) (reason_rank t))) [
  | inl b ↦ rw b (ground arith)
  | inr b ↦ rw b h
]

waits-IsOwed :
    (n : ℕ) (s : Scheduler) (ops : List Op)
    → any takes ops ≡ false
    → IsOwed n s.pending
    → IsOwed n (run ops s).pending
unfolding run step request finish stop
waits-IsOwed n s [] h o = o
waits-IsOwed n s (requested t ∷ ops) h o =
    waits-IsOwed n (request t s) ops h (coalesce-IsOwed n t s.pending o)
waits-IsOwed n s (took ∷ ops) h o = cc
waits-IsOwed n s (finished r ∷ ops) h o = waits-IsOwed n (finish r s) ops h o
waits-IsOwed n s (stopped ∷ ops) h o = waits-IsOwed n (stop s) ops h o

-- From the moment that a trigger is requested until the worker takes a request, a request is pending
-- that ranks at least as high, whatever else is requested, finishes or stops meanwhile.
pub request-survives :
    (t : Trigger) (s : Scheduler) (ops : List Op)
    → any takes ops ≡ false
    → IsOwed (reason_rank t) (run (requested t ∷ ops) s).pending
unfolding run step request
request-survives t s ops h =
    waits-IsOwed (reason_rank t) (request t s) ops h (request-IsOwed t s.pending)

append-le :
    (os : List RetrainOutcome) (o : RetrainOutcome)
    → length os ≤ outcomes_max
    → length (append os o) ≤ outcomes_max
unfolding append
append-le [] o h = ground arith
append-le (x ∷ xs) o h = ground (arith, length-append xs (o ∷ []))

finish-le :
    (o : Option RetrainOutcome) (s : Scheduler)
    → length s.outcomes ≤ outcomes_max
    → length (finish o s).outcomes ≤ outcomes_max
unfolding finish
finish-le none s h = h
finish-le (some o) s h = append-le s.outcomes o h

taken-outcomes : (s : Scheduler) (o : Option Trigger) → (taken s o).0.outcomes ≡ s.outcomes
taken-outcomes s none = refl
taken-outcomes s (some t) = refl

take-outcomes : (s : Scheduler) → (take s).0.outcomes ≡ s.outcomes
unfolding take
take-outcomes s = ground (arith, taken-outcomes s s.pending)

-- A record of at most one hundred outcomes never grows beyond one hundred, whatever the steps.
pub run-outcomes_le :
    (ops : List Op) (s : Scheduler)
    → length s.outcomes ≤ outcomes_max
    → length (run ops s).outcomes ≤ outcomes_max
unfolding run step request stop
run-outcomes_le [] s h = h
run-outcomes_le (requested t ∷ ops) s h = run-outcomes_le ops (request t s) h
run-outcomes_le (took ∷ ops) s h =
    run-outcomes_le ops (take s).0 (subst (λ z. length z ≤ outcomes_max) (sym (take-outcomes s)) h)
run-outcomes_le (finished o ∷ ops) s h = run-outcomes_le ops (finish o s) (finish-le o s h)
run-outcomes_le (stopped ∷ ops) s h = run-outcomes_le ops (stop s) h

-- `target - now` in whole seconds, with the target a day later unless it is in the future
pub seconds_until_next_run : ℕ → ℕ → ℕ
seconds_until_next_run hour second_of_day =
    let target = hour * 3600 in
    if leb target second_of_day then target + 86400 - second_of_day else target - second_of_day

-- For an hour of the day and a second of the day, the wait is positive, at most a day, and ends at
-- the hour.
pub seconds_until_next_run_lem :
    (hour second_of_day : ℕ)
    → hour < 24
    → second_of_day < 86400
    → (0 < seconds_until_next_run hour second_of_day)
      × (seconds_until_next_run hour second_of_day ≤ 86400)
      × ((second_of_day + seconds_until_next_run hour second_of_day) % 86400 ≡ hour * 3600)
unfolding seconds_until_next_run
seconds_until_next_run_lem hour second_of_day h s = ground arith
