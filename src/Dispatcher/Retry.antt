-- ===== src/Dispatcher/Retry.antt =====
-- What becomes of one message, however its handler answers.
use mathlib.Core.Path.{subst}
use reportportal_analyzer_ng.Prelude.{
  if◌then◌else◌, ap, ◌++◌, leb, ◌==◌, Bool-cases, ℕ, zero, suc, ◌+◌, ◌≤◌, ◌<◌, ◌≡◌, refl, sym, ◌≢◌,
  inl, inr, true, Option, none, some, List, [], ◌∷◌, arith,
}
use reportportal_analyzer_ng.Text.{Text}
use reportportal_analyzer_ng.Dispatcher.{
  DeadLetter, failed, Failure, unknown_routing_key, validation_error, task_timeout, other, Result,
  ok, raised, RouteSpec, ProcessingItem, success, unknown, Sent, Worker, End, replied, ignored,
  gave_up, shut_down, crashed, delay_at, watched, process, observe, publish_reply, fail, waited,
  after, process_from, process_bound,
}

-- an attempt's answer, once the watchdog has had its say
abbrev pub verdict : Worker → (ℕ → Result (Option Text)) → ℕ → Result (Option Text)
verdict w answer attempt = watched (w.overran attempt) (answer attempt)

-- every attempt before the n-th raised an error that is retried
abbrev pub IsRetried : Worker → (ℕ → Result (Option Text)) → ℕ → Type 0
IsRetried w answer n = (k : ℕ) → k < n → verdict w answer k ≡ raised other

IsRetried-suc :
    (w : Worker) (answer : ℕ → Result (Option Text)) (n : ℕ)
    → IsRetried w answer n
    → verdict w answer n ≡ raised other
    → IsRetried w answer (n + 1)
IsRetried-suc w answer n r e k l = elim (Bool-cases (k == n)) [
  | inl b ↦ let q : k ≡ n = ground arith in subst (λ z. verdict w answer z ≡ raised other) (sym q) e
  | inr b ↦ r k (ground arith)
]

abbrev retries_at : ℕ → ℕ → ℕ
retries_at zero r = r
retries_at (suc n) r = suc n

retries_at-next : (n r : ℕ) → retries_at (n + 1) r ≡ n + 1
retries_at-next zero r = refl
retries_at-next (suc n) r = let e : suc n + 1 ≡ suc (suc n) = omega arith in rw e refl

delay_at-nil : (ds : List ℕ) (n : ℕ) → delay_at ds n ≡ none → ds ≡ []
delay_at-nil [] n h = refl
delay_at-nil (d ∷ []) n h = cc
delay_at-nil (d ∷ e ∷ ds) zero h = cc
delay_at-nil (d ∷ e ∷ ds) (suc n) h = absurd (cons_nil (delay_at-nil (e ∷ ds) n h))
  where
    cons_nil : e ∷ ds ≡ [] → ⊥
    cons_nil q = cc

module _ {B : Type 0} where
  -- the item as it stands at an attempt, of which each but the first has written its number
  abbrev pub at_attempt : ℕ → ProcessingItem B → ProcessingItem B
  at_attempt n item = record item { retries = retries_at n item.retries }

  -- a failure is counted, and dead-lettered once if the publisher takes the letter
  abbrev pub given_up : Worker → ProcessingItem B → Failure → Sent B → Sent B
  given_up w item e sent =
      let letter : DeadLetter B = record {
        body = item.body;
        error = e;
        routing_key = item.routing_key;
        retries = item.retries;
      } in
      record sent {
        dead_letters =
            if w.takes_dead_letter then sent.dead_letters ++ letter ∷ [] else sent.dead_letters;
        metrics = sent.metrics ++ (item.routing_key, failed) ∷ [];
      }

  fail-given_up :
      (w : Worker) (item : ProcessingItem B) (e : Failure) (sent : Sent B)
      → fail w item e sent ≡ given_up w item e sent
  unfolding fail
  fail-given_up w item e sent = elim (Bool-cases w.takes_dead_letter) [
    | inl b ↦ rw b refl
    | inr b ↦ rw b refl
  ]

  gives_up :
      (w : Worker) (item : ProcessingItem B) (e : Failure) (sent : Sent B)
      → ◌≡◌ {A = Sent B × End} (fail w item e sent, gave_up) (given_up w item e sent, gave_up)
  gives_up w item e sent = ap {B = Sent B × End} (λ s. (s, gave_up)) (fail-given_up w item e sent)

  pub data IsSettled (w : Worker) (answer : ℕ → Result (Option Text)) (item : ProcessingItem B)
      (sent : Sent B) (result : Sent B × End) : Type 0 where
    by_reply :
        (n : ℕ) (reply : Option Text)
        → n ≤ w.max_retries
        → IsRetried w answer n
        → verdict w answer n ≡ ok reply
        → result ≡ (
          observe item.routing_key success (publish_reply w (at_attempt n item) reply sent),
          replied,
        )
        → IsSettled w answer item sent result
    by_unknown_key :
        (n : ℕ)
        → n ≤ w.max_retries
        → IsRetried w answer n
        → verdict w answer n ≡ raised unknown_routing_key
        → result ≡ (observe item.routing_key unknown sent, ignored)
        → IsSettled w answer item sent result
    by_failure :
        (n : ℕ) (e : Failure)
        → n ≤ w.max_retries
        → IsRetried w answer n
        → verdict w answer n ≡ raised e
        → e ≢ unknown_routing_key
        → (e ≡ other → n ≡ w.max_retries)
        → result ≡ (given_up w (at_attempt n item) e sent, gave_up)
        → IsSettled w answer item sent result
    by_shutdown :
        (n : ℕ)
        → n < w.max_retries
        → IsRetried w answer (n + 1)
        → w.stops n ≡ true
        → result ≡ (sent, shut_down)
        → IsSettled w answer item sent result
    by_crash :
        0 < w.max_retries
        → w.retry_delays ≡ []
        → result ≡ (sent, crashed)
        → IsSettled w answer item sent result

  after-IsSettled :
      (w : Worker) (answer : ℕ → Result (Option Text)) (attempt : ℕ) (item : ProcessingItem B)
      (sent : Sent B) (v : Result (Option Text)) (later : Sent B × End)
      → verdict w answer attempt ≡ v
      → attempt ≤ w.max_retries
      → IsRetried w answer attempt
      → (attempt < w.max_retries
          → IsRetried w answer (attempt + 1)
          → IsSettled w answer item sent later)
      → IsSettled w answer item sent (after w (at_attempt attempt item) attempt sent v later)
  after-IsSettled w answer n item sent (ok reply) later h l r f = by_reply n reply l r h refl
  after-IsSettled w answer n item sent (raised unknown_routing_key) later h l r f =
      by_unknown_key n l r h refl
  after-IsSettled w answer n item sent (raised validation_error) later h l r f =
      by_failure n validation_error l r h (λ e. cc) (λ e. cc)
        (gives_up w (at_attempt n item) validation_error sent)
  after-IsSettled w answer n item sent (raised task_timeout) later h l r f =
      by_failure n task_timeout l r h (λ e. cc) (λ e. cc)
        (gives_up w (at_attempt n item) task_timeout sent)
  after-IsSettled w answer n item sent (raised other) later h l r f =
      elim (Bool-cases (leb w.max_retries n)) [
        | inl b ↦ rw b (
            by_failure n other l r h (λ e. cc) (λ e. ground arith)
              (gives_up w (at_attempt n item) other sent))
        | inr b ↦ rw b (
            waited-IsSettled (delay_at w.retry_delays n) refl (ground arith)
              (IsRetried-suc w answer n r h))
      ]
    where
      waited-IsSettled :
          (o : Option ℕ)
          → delay_at w.retry_delays n ≡ o
          → n < w.max_retries
          → IsRetried w answer (n + 1)
          → IsSettled w answer item sent (waited w (at_attempt n item) n sent o later)
      waited-IsSettled none e k s = by_crash (ground arith) (delay_at-nil w.retry_delays n e) refl
      waited-IsSettled (some d) e k s = elim (Bool-cases (w.stops n)) [
        | inl b ↦ rw b (by_shutdown n k s b refl)
        | inr b ↦ rw b (f k s)
      ]

  process_from-IsSettled :
      (w : Worker) (answer : ℕ → Result (Option Text)) (fuel attempt : ℕ) (item : ProcessingItem B)
      (sent : Sent B)
      → attempt + fuel ≡ w.max_retries
      → IsRetried w answer attempt
      → IsSettled w answer item sent
          (process_from w answer (suc fuel) attempt (at_attempt attempt item) sent)
  unfolding process_from
  process_from-IsSettled w answer zero n item sent e r =
      after-IsSettled w answer n item sent (verdict w answer n)
        (process_from w answer zero (n + 1) (record item { retries = n + 1 }) sent) refl
        (ground arith) r (λ k s. ground arith)
  process_from-IsSettled w answer (suc fuel) n item sent e r =
      after-IsSettled w answer n item sent (verdict w answer n)
        (process_from w answer (suc fuel) (n + 1) (record item { retries = n + 1 }) sent) refl
        (ground arith) r
        (λ k s.
          subst
            (λ z.
              IsSettled w answer item sent
                (process_from w answer (suc fuel) (n + 1) (record item { retries = z }) sent))
            (retries_at-next n item.retries)
            (process_from-IsSettled w answer fuel (n + 1) item sent (ground arith) s))

  -- A message is settled in one of five ways, and its handler runs at most one time more than the
  -- allowed retries, again only after an error that is retried. The first attempt that raises no such
  -- error decides: its reply is published, an unknown key is ignored, another failure is
  -- dead-lettered once; the last allowed attempt is dead-lettered if it raises. A shutdown during a
  -- wait publishes nothing. An exception leaves the loop only if there are no delays. The loop never
  -- runs out of its fuel.
  pub process_bound-IsSettled :
      {Q R : Type 0} (w : Worker) (routes : Text → Option (RouteSpec B Q R))
      (item : ProcessingItem B) (sent : Sent B)
      → IsSettled w
          (λ attempt. process routes item.routing_key attempt item.body)
          item
          sent
          (process_bound w routes item sent)
  unfolding process_bound
  process_bound-IsSettled w routes item sent =
      process_from-IsSettled w (λ attempt. process routes item.routing_key attempt item.body)
        w.max_retries 0 item sent (omega arith) (λ k l. ground arith)
