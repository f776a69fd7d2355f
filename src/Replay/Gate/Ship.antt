-- ===== src/Replay/Gate/Ship.antt =====
-- What the replay and the ship gate promise of the candidate and of the store.
use mathlib.Core.Path.{subst}
use reportportal_analyzer_ng.Prelude.{
  ltb, Bool-cases, length, is_empty, ℕ, ◌≤◌, ◌≡◌, refl, sym, ap, inl, inr, true, false, ◌||◌,
  Option, none, some, List, [], ◌∷◌, ◌++◌, map, arith,
}
use reportportal_analyzer_ng.Floats.{Floats}
use reportportal_analyzer_ng.Replay.Events.{Event, usable_events, chronological_split}
use reportportal_analyzer_ng.Replay.Report.{Scoring, evaluate}
use reportportal_analyzer_ng.Replay.Gate.{
  GateResult, gbm_min_events, passes_gate, fit_scoring_calibrator, active_scoring, trained,
  run_gate, Rejected, ModelStore, active_cal, load_active_model, load_active_install_calibrator,
  persist_rejected, gate_verdict, ship_gate,
}
use reportportal_analyzer_ng.Replay.Gate.Verdict.{IsShippable, passes_gate-IsShippable}

module _ {V : Type 0} where
  abbrev pub train_slice : (ℕ → ℕ) → List (Event V) → List (Event V)
  train_slice cut rows = (chronological_split cut (usable_events rows)).0

  abbrev pub eval_slice : (ℕ → ℕ) → List (Event V) → List (Event V)
  eval_slice cut rows = (chronological_split cut (usable_events rows)).1

module _ {F M : Type 0} where
  candidates_snoc :
      (rs : List (Rejected F M)) (r : Rejected F M)
      → map (λ x. x.candidate) (rs ++ r ∷ []) ≡ map (λ x. x.candidate) rs ++ r.candidate ∷ []
  candidates_snoc [] r = refl
  candidates_snoc (x ∷ xs) r = ap (λ l. x.candidate ∷ l) (candidates_snoc xs r)

module _ {F M K : Type 0} where
  persist_rejected-audits :
      (store : ModelStore F M K) (candidate : M) (result : GateResult F) (now : ℕ)
      → ((persist_rejected store candidate result now).active_gbm ≡ store.active_gbm)
        × ((persist_rejected store candidate result now).active_calibrators
            ≡ store.active_calibrators)
        × (store.saves ≡ true
            → map (λ r. r.candidate) (persist_rejected store candidate result now).rejected
              ≡ map (λ r. r.candidate) store.rejected ++ candidate ∷ [])
  persist_rejected-audits store candidate result now = elim (Bool-cases store.saves) [
    | inl e ↦ rw e (refl, refl, λ h. candidates_snoc store.rejected _)
    | inr e ↦ rw e (refl, refl, λ h. cc)
  ]

module _ {F V M K : Type 0} ⦃fl : Floats F⦄ where
  -- a candidate trained on the first slice that beats the active model on the other
  pub record IsReplayed (sc : Scoring F V M K) (cut : ℕ → ℕ) (train_fn : List (Event V) → Option M)
      (rows : List (Event V)) (active : M) (calibrator : Option (Option K)) (candidate : M)
      : Type 0 where
    pub trains : train_fn (train_slice cut rows) ≡ some candidate
    pub enough : gbm_min_events ≤ length (train_slice cut rows)
    pub held_out : is_empty (eval_slice cut rows) ≡ false
    pub beats :
        IsShippable
          (evaluate sc candidate
            (eval_slice cut rows)
            (fit_scoring_calibrator sc candidate (train_slice cut rows)))
          (evaluate sc active
            (eval_slice cut rows)
            (active_scoring sc active (train_slice cut rows) calibrator))

  trained-ships :
      (sc : Scoring F V M K) (o : Option M) (train eval : List (Event V))
      (calibrator : Option (Option K)) (active : M)
      → (trained sc o train eval calibrator (some active)).ship ≡ true
      → (candidate : M) × (o ≡ some candidate)
        × IsShippable
            (evaluate sc candidate eval (fit_scoring_calibrator sc candidate train))
            (evaluate sc active eval (active_scoring sc active train calibrator))
  trained-ships sc none train eval calibrator active h = cc
  trained-ships sc (some candidate) train eval calibrator active h = (
    candidate,
    refl,
    (passes_gate-IsShippable
          (evaluate sc candidate eval (fit_scoring_calibrator sc candidate train))
          (evaluate sc active eval (active_scoring sc active train calibrator))).0
        h,
  )

  -- Against an active model the replay ships only if it trained a candidate on at least 50 events of
  -- the first slice, some events are held out, and on those the candidate meets the three conditions.
  pub run_gate-IsReplayed :
      (sc : Scoring F V M K) (cut : ℕ → ℕ) (train_fn : List (Event V) → Option M)
      (rows : List (Event V)) (active : M) (calibrator : Option (Option K))
      → (run_gate sc cut train_fn rows (some active) calibrator).ship ≡ true
      → (candidate : M) × IsReplayed sc cut train_fn rows active calibrator candidate
  unfolding run_gate
  run_gate-IsReplayed sc cut train_fn rows active calibrator h =
      let train = train_slice cut rows in
      let eval = eval_slice cut rows in
      elim (Bool-cases (is_empty eval || ltb (length train) gbm_min_events)) [
        | inl b ↦ let k : false ≡ true = rw b at h in cc
        | inr b ↦
            let (candidate, e, s) =
              trained-ships sc (train_fn train) train eval calibrator active (rw b at h) in
            (
              candidate,
              record { trains = e; enough = ground arith; held_out = ground arith; beats = s },
            )
      ]

  trained-cold :
      (sc : Scoring F V M K) (o : Option M) (train eval : List (Event V))
      (calibrator : Option (Option K))
      → (trained sc o train eval calibrator none).ship ≡ true
  unfolding passes_gate
  trained-cold sc none train eval calibrator = refl
  trained-cold sc (some candidate) train eval calibrator = refl

  run_gate-cold :
      (sc : Scoring F V M K) (cut : ℕ → ℕ) (train_fn : List (Event V) → Option M)
      (rows : List (Event V)) (calibrator : Option (Option K))
      → (run_gate sc cut train_fn rows none calibrator).ship ≡ true
  unfolding run_gate
  run_gate-cold sc cut train_fn rows calibrator =
      let train = train_slice cut rows in
      let eval = eval_slice cut rows in
      elim (Bool-cases (is_empty eval || ltb (length train) gbm_min_events)) [
        | inl b ↦ rw b refl
        | inr b ↦ rw b (trained-cold sc (train_fn train) train eval calibrator)
      ]

  verdict-cold :
      (sc : Scoring F V M K) (cut : ℕ → ℕ) (train_fn : List (Event V) → Option M) (schema : ℕ)
      (rows : List (Event V)) (store : ModelStore F M K)
      → load_active_model schema store ≡ none
      → (gate_verdict sc cut train_fn schema store rows).ship ≡ true
  verdict-cold sc cut train_fn schema rows store e =
      subst
        (λ o.
          (run_gate sc cut train_fn rows o
            (active_cal o (load_active_install_calibrator schema store))).ship
          ≡ true)
        (sym e) (run_gate-cold sc cut train_fn rows none)

  -- The ship gate never changes the active artifacts. It accepts without a trace; where it rejects and
  -- the store saves, one audit row is added, of the candidate it was given. A store without an active
  -- model of the current schema accepts every candidate.
  pub ship_gate-audits :
      (sc : Scoring F V M K) (cut : ℕ → ℕ) (train_fn : List (Event V) → Option M) (schema : ℕ)
      (candidate : M) (rows : List (Event V)) (now : ℕ) (store : ModelStore F M K)
      → ((ship_gate sc cut train_fn schema candidate rows now store).0.active_gbm
          ≡ store.active_gbm)
        × ((ship_gate sc cut train_fn schema candidate rows now store).0.active_calibrators
            ≡ store.active_calibrators)
        × ((ship_gate sc cut train_fn schema candidate rows now store).1 ≡ true
            → (ship_gate sc cut train_fn schema candidate rows now store).0 ≡ store)
        × ((ship_gate sc cut train_fn schema candidate rows now store).1 ≡ false
            → store.saves ≡ true
            → map
                (λ r. r.candidate)
                (ship_gate sc cut train_fn schema candidate rows now store).0.rejected
              ≡ map (λ r. r.candidate) store.rejected ++ candidate ∷ [])
        × (load_active_model schema store ≡ none
            → (ship_gate sc cut train_fn schema candidate rows now store).1 ≡ true)
  unfolding ship_gate
  ship_gate-audits sc cut train_fn schema candidate rows now store =
      let result = gate_verdict sc cut train_fn schema store rows in
      elim (Bool-cases result.ship) [
        | inl b ↦ rw b (refl, refl, (λ h. refl), (λ h. cc), (λ h. refl))
        | inr b ↦
            let (g, c, r) = persist_rejected-audits store candidate result now in
            rw b (
              g,
              c,
              (λ h. cc),
              (λ h k. r k),
              (λ h. cc (verdict-cold sc cut train_fn schema rows store h)),
            )
      ]
