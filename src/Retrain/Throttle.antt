-- ===== src/Retrain/Throttle.antt =====
-- How often models ship, and which triggers a failure holds back.
use reportportal_analyzer_ng.Prelude.{
  Bool-cases, head?, ℕ, ◌≡◌, refl, ◌↔◌, inl, inr, Bool, true, false, Option, none, some, List, [],
  ◌∷◌, arith,
}
use reportportal_analyzer_ng.Retrain.{
  Trigger, debounced, below_threshold, cold, gate_rejected, RetrainOutcome, shipped, skipped,
  is_events, World, Config, Retrainer, last_shipped_at, within, in_cooldown, too_few, rejected,
  attempted, attempt, settle, maybe_retrain,
}

-- every model ships at least the interval after the one before it
abbrev pub IsSpaced : ℕ → List ℕ → Type 0
IsSpaced gap [] = Unit
IsSpaced gap (t ∷ ts) = (within (head? ts) gap t ≡ false) × IsSpaced gap ts

abbrev pub is_attempt : RetrainOutcome → Bool
is_attempt (shipped reason version n) = true
is_attempt (skipped debounced n) = false
is_attempt (skipped below_threshold n) = false
is_attempt (skipped cold n) = true
is_attempt (skipped gate_rejected n) = true

attempted-outcome :
    (world : World) (reason : Trigger) (now : ℕ) (r : Retrainer) (o : Option ℕ)
    → is_attempt (settle now r (attempted world reason now r o)).1 ≡ true
attempted-outcome world reason now r none = refl
attempted-outcome world reason now r (some n) = elim (Bool-cases (rejected world.gate)) [
  | inl g ↦ rw g refl
  | inr g ↦ rw g refl
]

attempt-outcome :
    (world : World) (reason : Trigger) (now : ℕ) (r : Retrainer)
    → is_attempt (settle now r (attempt world reason now r)).1 ≡ true
unfolding attempt
attempt-outcome world reason now r = attempted-outcome world reason now r world.trained

-- Training is attempted exactly if no model shipped within the interval, no failure throttles the
-- trigger (a cold one throttles `events` only), and an `events` trigger has enough new events since
-- the last model, where there is one.
pub maybe_retrain-attempts :
    (cfg : Config) (world : World) (reason : Trigger) (now : ℕ) (r : Retrainer)
    → (is_attempt (maybe_retrain cfg world reason now r).1 ≡ true) ↔ (
        (within (last_shipped_at r) cfg.min_interval now ≡ false)
        × (in_cooldown cfg r now ≡ true
            → (r.last_failed_was_cold ≡ true) × (is_events reason ≡ false))
        × (is_events reason ≡ true → too_few cfg world (last_shipped_at r) ≡ false))
unfolding maybe_retrain
maybe_retrain-attempts cfg world reason now r =
    let a = attempt-outcome world reason now r in
    (
      λ h. (ground arith, λ c. (ground arith, ground arith), λ e. ground arith),
      λ h. let (w, k, f) = h in ground arith,
    )
