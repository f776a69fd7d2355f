-- ===== src/Breaker/Safety.antt =====
-- What holds of the breaker after any calls, and which calls it lets through.
use reportportal_analyzer_ng.Prelude.{◌≤◌, ◌<◌, ◌≡◌, List, [], ◌∷◌, arith}
use reportportal_analyzer_ng.Breaker.{
  closed, Config, CircuitBreaker, init, Call, ask, success, response, failure, step, run,
}

pub record IsSane (c : Config) : Type 0 where
  pub threshold_pos : 0 < c.fail_threshold
  pub base_le_max : c.base_cooldown_s ≤ c.max_cooldown_s

pub record IsValid (c : Config) (b : CircuitBreaker) : Type 0 where
  pub streak_short : b.state ≡ closed → b.consecutive_failures < c.fail_threshold
  pub closed_base : b.state ≡ closed → b.cooldown ≡ c.base_cooldown_s
  pub base_le : c.base_cooldown_s ≤ b.cooldown
  pub le_max : b.cooldown ≤ c.max_cooldown_s

pub init-IsValid : (c : Config) → IsSane c → IsValid c (init c)
init-IsValid c s = ground arith

pub step-IsValid :
    (c : Config) (b : CircuitBreaker) (call : Call)
    → IsSane c
    → IsValid c b
    → IsValid c (step c b call)
unfolding step
step-IsValid c b (ask now) s v = ground arith
step-IsValid c b success s v = ground arith
step-IsValid c b response s v = ground arith
step-IsValid c b (failure now) s v = ground arith

-- With a positive threshold and a base cooldown of at most the maximum, any calls keep a breaker
-- valid: its cooldown lies between the two, and if it is closed it has a streak below the
-- threshold and the base cooldown.
pub run-IsValid :
    (c : Config) (b : CircuitBreaker) (calls : List Call)
    → IsSane c
    → IsValid c b
    → IsValid c (run c b calls)
unfolding run
run-IsValid c b [] s v = v
run-IsValid c b (call ∷ calls) s v =
    run-IsValid c (step c b call) calls s (step-IsValid c b call s v)
