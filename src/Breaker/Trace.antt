-- ===== src/Breaker/Trace.antt =====
-- The calls of `on_state_change` as a path in the diagram of the breaker.
use reportportal_analyzer_ng.Prelude.{
  leb, Bool-cases, ℕ, ◌+◌, ◌≡◌, refl, inl, inr, true, false, List, [], ◌∷◌, ◌++◌,
}
use reportportal_analyzer_ng.Breaker.{
  BreakerState, closed, opened, half_open, same_state, Config, CircuitBreaker, transition, allow,
  record_failure, Call, ask, success, response, failure, step, run,
}

-- the edges of the diagram
pub data Edge : BreakerState → BreakerState → Type 0 where
  trip : Edge closed opened
  probe : Edge opened half_open
  reopen : Edge half_open opened
  heal : Edge half_open closed
  answer : Edge opened closed

-- the reported changes lead from the first state to the second, each from where the last one led
abbrev pub Links : BreakerState → List (BreakerState × BreakerState) → BreakerState → Type 0
Links s [] t = s ≡ t
Links s ((a, b) ∷ rest) t = (s ≡ a) × Edge a b × Links b rest t

Links-snoc :
    (s a b : BreakerState) (l : List (BreakerState × BreakerState))
    → Links s l a
    → Edge a b
    → Links s (l ++ (a, b) ∷ []) b
Links-snoc s a b [] h e = (h, e, refl)
Links-snoc s a b ((x, y) ∷ l) h e = (h.0, h.1, Links-snoc y a b l h.2 e)

Edge-closed : (a : BreakerState) → same_state a closed ≡ false → Edge a closed
Edge-closed closed h = cc
Edge-closed opened h = answer
Edge-closed half_open h = heal

Edge-probe : (a : BreakerState) → same_state a opened ≡ true → Edge a half_open
Edge-probe opened h = probe
Edge-probe half_open h = cc
Edge-probe closed h = cc

Edge-trip : (a : BreakerState) → same_state a closed ≡ true → Edge a opened
Edge-trip closed h = trip
Edge-trip half_open h = cc
Edge-trip opened h = cc

Edge-reopen : (a : BreakerState) → same_state a half_open ≡ true → Edge a opened
Edge-reopen half_open h = reopen
Edge-reopen closed h = cc
Edge-reopen opened h = cc

transition-Links :
    (s new : BreakerState) (b : CircuitBreaker)
    → Links s b.changes b.state
    → (same_state b.state new ≡ false → Edge b.state new)
    → Links s (transition new b).changes (transition new b).state
unfolding transition
transition-Links s new b h e = elim (Bool-cases (same_state b.state new)) [
  | inl same ↦ rw same h
  | inr other ↦ rw other (Links-snoc s b.state new b.changes h (e other))
]

allow-Links :
    (s : BreakerState) (b : CircuitBreaker) (now : ℕ)
    → Links s b.changes b.state
    → Links s (allow now b).0.changes (allow now b).0.state
unfolding allow
allow-Links s b now h = elim (Bool-cases (same_state b.state opened)) [
  | inl o ↦ elim (Bool-cases (leb (b.opened_at + b.cooldown) now)) [
    | inl late ↦ rw (o, late) (transition-Links s half_open b h (λ _. Edge-probe b.state o))
    | inr early ↦ rw (o, early) h
  ]
  | inr n ↦ rw n h
]

failure-Links :
    (c : Config) (s : BreakerState) (b : CircuitBreaker) (now : ℕ)
    → Links s b.changes b.state
    → Links s (record_failure c now b).changes (record_failure c now b).state
unfolding record_failure
failure-Links c s b now h = elim (Bool-cases (same_state b.state half_open)) [
  | inl p ↦ rw p (transition-Links s opened _ h (λ _. Edge-reopen b.state p))
  | inr n ↦ elim (Bool-cases (same_state b.state closed)) [
    | inl k ↦ elim (Bool-cases (leb c.fail_threshold (b.consecutive_failures + 1))) [
      | inl full ↦ rw (n, k, full) (transition-Links s opened _ h (λ _. Edge-trip b.state k))
      | inr more ↦ rw (n, k, more) h
    ]
    | inr k ↦ rw (n, k) h
  ]
]

step-Links :
    (c : Config) (s : BreakerState) (b : CircuitBreaker) (call : Call)
    → Links s b.changes b.state
    → Links s (step c b call).changes (step c b call).state
unfolding step
step-Links c s b (ask now) h = allow-Links s b now h
step-Links c s b success h =
    transition-Links s closed (record b { consecutive_failures = 0; cooldown = c.base_cooldown_s })
      h (Edge-closed b.state)
step-Links c s b response h =
    transition-Links s closed (record b { consecutive_failures = 0; cooldown = c.base_cooldown_s })
      h (Edge-closed b.state)
step-Links c s b (failure now) h = failure-Links c s b now h

-- If the reported state changes form a path in the diagram from `closed` to the current state, they
-- do so after any calls.
pub run-Links :
    (c : Config) (b : CircuitBreaker) (calls : List Call)
    → Links closed b.changes b.state
    → Links closed (run c b calls).changes (run c b calls).state
unfolding run
run-Links c b [] h = h
run-Links c b (call ∷ calls) h = run-Links c (step c b call) calls (step-Links c closed b call h)
