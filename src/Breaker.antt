-- ===== src/Breaker.antt =====
-- src/analyzer_ng/llm/breaker.py: the circuit breaker around every call of the sidecar.
-- The clock is an argument of the methods that read it (in whole ticks). The lock makes each
-- method one step, so a run is a list of calls. `changes` holds the calls of `on_state_change`.
pub mod Safety
pub mod Backoff
pub mod Trace
mod Tests
use reportportal_analyzer_ng.Prelude.{
  ℕ, ◌+◌, ◌*◌, min, Bool, true, false, ◌&&◌, Option, none, some, List, [], ◌∷◌, ◌++◌, leb,
  if◌then◌else◌,
}

pub data BreakerState : Type 0 where
  closed opened half_open : BreakerState

abbrev pub same_state : BreakerState → BreakerState → Bool
same_state closed closed = true
same_state opened opened = true
same_state half_open half_open = true
same_state _ _ = false

pub record Config : Type 0 where
  pub fail_threshold : ℕ
  pub base_cooldown_s : ℕ
  pub max_cooldown_s : ℕ

pub record CircuitBreaker : Type 0 where
  pub state : BreakerState
  pub consecutive_failures : ℕ
  pub cooldown : ℕ
  pub opened_at : ℕ
  pub changes : List (BreakerState × BreakerState)

abbrev pub init : Config → CircuitBreaker
init c = record {
  state = closed;
  consecutive_failures = 0;
  cooldown = c.base_cooldown_s;
  opened_at = 0;
  changes = [];
}

pub transition : BreakerState → CircuitBreaker → CircuitBreaker
transition new b =
    if same_state b.state new
    then b
    else record b { state = new; changes = b.changes ++ (b.state, new) ∷ [] }

-- `clock() - opened_at >= cooldown`, with the subtraction moved to the other side
unfoldable pub allow : ℕ → CircuitBreaker → CircuitBreaker × Bool
unfolding transition
allow now b =
    if same_state b.state opened
    then (if leb (b.opened_at + b.cooldown) now then (transition half_open b, true) else (b, false))
    else (b, true)

unfoldable pub record_success : Config → CircuitBreaker → CircuitBreaker
unfolding transition
record_success c b =
    transition closed (record b { consecutive_failures = 0; cooldown = c.base_cooldown_s })

unfoldable pub record_response : Config → CircuitBreaker → CircuitBreaker
unfolding record_success
record_response c b = record_success c b

unfoldable pub record_failure : Config → ℕ → CircuitBreaker → CircuitBreaker
unfolding transition
record_failure c now b =
    if same_state b.state half_open
    then transition opened
        (record b { cooldown = min (b.cooldown * 2) c.max_cooldown_s; opened_at = now })
    else let counted = record b { consecutive_failures = b.consecutive_failures + 1 } in
      if same_state b.state closed && leb c.fail_threshold counted.consecutive_failures
      then transition opened (record counted { cooldown = c.base_cooldown_s; opened_at = now })
      else counted

-- a call of a method, with what the clock reads
pub data Call : Type 0 where
  ask : ℕ → Call
  success response : Call
  failure : ℕ → Call

pub step : Config → CircuitBreaker → Call → CircuitBreaker
unfolding allow record_success record_response record_failure
step c b (ask now) = (allow now b).0
step c b success = record_success c b
step c b response = record_response c b
step c b (failure now) = record_failure c now b

pub run : Config → CircuitBreaker → List Call → CircuitBreaker
run c b [] = b
run c b (call ∷ calls) = run c (step c b call) calls
