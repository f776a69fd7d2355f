-- ===== src/Breaker/Backoff.antt =====
-- The quiet period of an open breaker, the failures that open it, and the doubling cooldown.
use native.Mathlib.Decide.{dec_le}
use native.Mathlib.Nat.{pow-suc}
use reportportal_analyzer_ng.Prelude.{
  ◌++◌, length, All, ℕ, zero, suc, ◌+◌, ◌*◌, ◌^◌, ◌≤◌, ◌<◌, min, ◌≡◌, ◌∙◌, ◌↔◌, false, List, [],
  ◌∷◌, arith,
}
use reportportal_analyzer_ng.Breaker.{
  closed, opened, Config, CircuitBreaker, allow, record_failure, Call, ask, success, response,
  failure, step, run,
}

-- `allow` refuses exactly an open breaker whose cooldown has not elapsed.
pub allow-refuses_iff :
    (now : ℕ) (b : CircuitBreaker)
    → ((allow now b).1 ≡ false) ↔ ((b.state ≡ opened) × (now < b.opened_at + b.cooldown))
unfolding allow
allow-refuses_iff now b = (λ h. ground arith, λ h. ground arith)

-- calls that come before a time and report no answer of the server
abbrev pub IsQuiet : ℕ → Call → Type 0
IsQuiet end (ask now) = now < end
IsQuiet end success = ⊥
IsQuiet end response = ⊥
IsQuiet end (failure now) = Unit

step_quiet :
    (c : Config) (b : CircuitBreaker) (call : Call)
    → b.state ≡ opened
    → IsQuiet (b.opened_at + b.cooldown) call
    → ((step c b call).state ≡ opened)
      × ((step c b call).opened_at ≡ b.opened_at)
      × ((step c b call).cooldown ≡ b.cooldown)
unfolding step
step_quiet c b (ask now) o q = ground arith
step_quiet c b success o q = absurd q
step_quiet c b response o q = absurd q
step_quiet c b (failure now) o q = ground arith

-- While an opened breaker cools down, failures that arrive late and further questions neither close it
-- nor move the end of the cooldown: until then it refuses every call.
pub run_quiet :
    (c : Config) (b : CircuitBreaker) (end now : ℕ) (calls : List Call)
    → b.state ≡ opened
    → b.opened_at + b.cooldown ≡ end
    → All (IsQuiet end) calls
    → now < end
    → (allow now (run c b calls)).1 ≡ false
unfolding run allow
run_quiet c b end now [] o e q h = ground arith
run_quiet c b end now (call ∷ calls) o e q h =
    let (o', a', d') = step_quiet c b call o (rw e q.0) in
    run_quiet c (step c b call) end now calls o' (rw (a', d') e) q.1 h

-- failures at the readings of the clock
abbrev pub failures : List ℕ → List Call
failures [] = []
failures (t ∷ ts) = failure t ∷ failures ts

-- However the failures of a closed breaker are spaced, it stays closed while they are fewer than
-- `fail_threshold` in a row; the one that completes the streak opens it at its own time, for the base
-- cooldown, so that it refuses every call until that has elapsed.
pub failures_open :
    (c : Config) (b : CircuitBreaker) (ts : List ℕ) (last : ℕ)
    → b.state ≡ closed
    → b.consecutive_failures + suc (length ts) ≡ c.fail_threshold
    → let before = run c b (failures ts) in
      let after = run c b (failures (ts ++ last ∷ [])) in
      (before.state ≡ closed)
      × (after.state ≡ opened)
      × ((now : ℕ) → ((allow now after).1 ≡ false) ↔ (now < last + c.base_cooldown_s))
unfolding run step allow
failures_open c b [] last s e = (
  s,
  unfold record_failure in ground arith,
  λ now. unfold record_failure in (λ h. ground arith, λ h. ground arith),
)
failures_open c b (t ∷ ts) last s e =
    failures_open c (record_failure c t b) ts last (unfold record_failure in ground arith)
      (unfold record_failure in ground arith)

-- a probe at each time, failing
abbrev pub failed_probes : List ℕ → List Call
failed_probes [] = []
failed_probes (t ∷ ts) = ask t ∷ failure t ∷ failed_probes ts

-- the probes lie at least the maximal cooldown apart
abbrev pub IsSpaced : ℕ → ℕ → List ℕ → Type 0
IsSpaced gap last [] = Unit
IsSpaced gap last (t ∷ ts) = (last + gap ≤ t) × IsSpaced gap t ts

pow_pos : (k : ℕ) → 1 ≤ 2 ^ k
pow_pos zero = omega arith
pow_pos (suc k) = rw (pow-suc 2 k) (omega (arith, pow_pos k))

min-scale : (x m p : ℕ) → 1 ≤ p → min (min x m * p) m ≡ min (x * p) m
min-scale x m p h = elim (dec_le x m) [
  | yes q ↦ let e : min x m ≡ x = omega arith in rw e
  | no q ↦ let e : min x m ≡ m = omega arith in rw e (grind arith)
]

min-double : (d m k : ℕ) → min (min (d * 2) m * 2 ^ k) m ≡ min (d * 2 ^ suc k) m
min-double d m k =
    let e : d * 2 ^ suc k ≡ d * 2 * 2 ^ k = rw (pow-suc 2 k) (omega arith) in
    rw e (min-scale (d * 2) m (2 ^ k) (pow_pos k))

probe_step :
    (c : Config) (b : CircuitBreaker) (t : ℕ)
    → b.state ≡ opened
    → b.opened_at + b.cooldown ≤ t
    → ((step c (step c b (ask t)) (failure t)).state ≡ opened)
      × ((step c (step c b (ask t)) (failure t)).opened_at ≡ t)
      × ((step c (step c b (ask t)) (failure t)).cooldown ≡ min (b.cooldown * 2) c.max_cooldown_s)
unfolding step allow record_failure
probe_step c b t o h = ground arith

-- A breaker that is open, with a cooldown of at most the maximum, is open again after probes that all
-- fail and that lie at least the maximal cooldown apart; its cooldown has doubled with each, up to the
-- maximum.
pub probes_double :
    (c : Config) (b : CircuitBreaker) (ts : List ℕ)
    → b.state ≡ opened
    → b.cooldown ≤ c.max_cooldown_s
    → IsSpaced c.max_cooldown_s b.opened_at ts
    → ((run c b (failed_probes ts)).state ≡ opened)
      × ((run c b (failed_probes ts)).cooldown ≡ min (b.cooldown * 2 ^ length ts) c.max_cooldown_s)
unfolding run
probes_double c b [] o m s = (o, omega arith)
probes_double c b (t ∷ ts) o m s =
    let b' = step c (step c b (ask t)) (failure t) in
    let (o', a', d') = probe_step c b t o (omega arith) in
    let (oo, dd) = probes_double c b' ts o' (rw d' (omega arith)) (rw a' s.1) in
    (oo, dd ∙ rw d' (min-double b.cooldown c.max_cooldown_s (length ts)))
