-- ===== src/Breaker/Tests.antt =====
-- The breaker with the service's settings: three failures, one minute, fifteen minutes.
use reportportal_analyzer_ng.Prelude.{ℕ, ◌+◌, ◌<◌, ◌≡◌, refl, ◌↔◌, false, List, [], ◌∷◌, arith}
use reportportal_analyzer_ng.Breaker.{
  closed, opened, Config, CircuitBreaker, init, allow, Call, ask, failure, step, run,
}
use reportportal_analyzer_ng.Breaker.Safety.{IsValid, init-IsValid, run-IsValid}
use reportportal_analyzer_ng.Breaker.Backoff.{run_quiet, failures, failures_open}

abbrev settings : Config
settings = record { fail_threshold = 3; base_cooldown_s = 60; max_cooldown_s = 900 }

abbrev outage : List Call
outage = failure 10 ∷ failure 11 ∷ failure 12 ∷ ask 30 ∷ failure 40 ∷ []

abbrev tripped : CircuitBreaker
tripped = record {
  state = opened;
  consecutive_failures = 3;
  cooldown = 60;
  opened_at = 12;
  changes = (closed, opened) ∷ [];
}

outage_trips : (run settings (init settings) outage).state ≡ opened
unfolding run step
outage_trips = refl

run-IsValid_example : IsValid settings (run settings (init settings) outage)
run-IsValid_example =
    run-IsValid settings (init settings) outage (omega arith) (init-IsValid settings (omega arith))

run_quiet_example : (allow 71 (run settings tripped (ask 30 ∷ failure 40 ∷ []))).1 ≡ false
run_quiet_example =
    run_quiet settings tripped 72 71 (ask 30 ∷ failure 40 ∷ []) refl refl (omega arith)
      (omega arith)

failures_open_example :
    let before = run settings (init settings) (failures (3 ∷ 5 ∷ [])) in
    let after = run settings (init settings) (failures (3 ∷ 5 ∷ 9 ∷ [])) in
    (before.state ≡ closed)
    × (after.state ≡ opened)
    × ((now : ℕ) → ((allow now after).1 ≡ false) ↔ (now < 9 + settings.base_cooldown_s))
failures_open_example = failures_open settings (init settings) (3 ∷ 5 ∷ []) 9 refl refl
