-- ===== src/LlmQueue/Bounds.antt =====
-- The queue never holds more than `maxsize` jobs, and every job handed in is accounted for.
use reportportal_analyzer_ng.Prelude.{
  leb, ◌==◌, if◌then◌else◌, Bool-cases, Option-cases, length, any, length-append, All, ℕ, suc, ◌+◌,
  ◌≤◌, ◌<◌, max, ◌≡◌, refl, ap, inl, inr, Bool, true, false, ◌&&◌, none, some, List, [], ◌∷◌, arith,
}
use reportportal_analyzer_ng.LlmQueue.{
  role_priority, LlmJob, Entry, returns, LlmQueue, heappush, worst_priority, carry, last_first,
  swap_out, heapify, remove_seq, enqueue, pop_from, safe_process, drain_from, drain_once, worker_on,
  run_round, stop, Op, submit, round, drain, halt, step, run,
}
use reportportal_analyzer_ng.LlmQueue.Overflow.{enqueue_lem}

module _ {P : Type 0} where
  length-heappush : (e : Entry P) (h : List (Entry P)) → length (heappush e h) ≡ length h + 1
  unfolding heappush
  length-heappush e [] = refl
  length-heappush e (f ∷ rest) = ground (arith, length-heappush e rest)

  length-carry : (e : Entry P) (h : List (Entry P)) → length (carry e h) ≡ length h + 1
  length-carry e [] = refl
  length-carry e (f ∷ h) = omega arith

  length-last_first : (h : List (Entry P)) → length (last_first h) ≡ length h
  unfolding last_first
  length-last_first [] = refl
  length-last_first (e ∷ h) = omega (arith, length-carry e (last_first h), length-last_first h)

  length-heapify : (h : List (Entry P)) → length (heapify h) ≡ length h
  unfolding heapify
  length-heapify [] = refl
  length-heapify (e ∷ h) = omega (arith, length-heappush e (heapify h), length-heapify h)

  length-swap_out :
      (w s : ℕ) (h : List (Entry P))
      → any (λ e. e.priority == w && e.seq == s) h ≡ true
      → length (swap_out s h) + 1 ≡ length h
  unfolding swap_out
  length-swap_out w s [] a = cc
  length-swap_out w s (e ∷ rest) a =
      ground (arith, length-swap_out w s rest, length-last_first rest)

  length-remove_seq :
      (w s : ℕ) (h : List (Entry P))
      → any (λ e. e.priority == w && e.seq == s) h ≡ true
      → length (remove_seq s h) + 1 ≡ length h
  unfolding remove_seq
  length-remove_seq w s h a = omega (arith, length-heapify (swap_out s h), length-swap_out w s h a)

  worst_of_cons : (h : List (Entry P)) → 0 < length h → (w : ℕ) × (worst_priority h ≡ some w)
  unfolding worst_priority
  worst_of_cons [] l = absurd (omega arith)
  worst_of_cons (e ∷ rest) l = elim (Option-cases (worst_priority rest)) [
    | inl n ↦ (e.priority, rw n)
    | inr (p, n) ↦ (max e.priority p, rw n)
  ]

  -- what is queued, dropped and processed
  abbrev pub accounted : LlmQueue P → ℕ
  accounted q = length q.heap + q.dropped + length q.processed

  abbrev pub IsKnown : LlmJob P → Type 0
  IsKnown job = (p : ℕ) × (role_priority job.role ≡ some p)

  -- With a positive maximal size, a job of a known role is accepted without a fault into a queue that
  -- is not too large: the queue stays within its size and accounts for one job more.
  pub enqueue-accounted :
      (maxsize : ℕ) (job : LlmJob P) (q : LlmQueue P)
      → 0 < maxsize
      → IsKnown job
      → length q.heap ≤ maxsize
      → (length (enqueue maxsize job q).0.heap ≤ maxsize)
        × (accounted (enqueue maxsize job q).0 ≡ accounted q + 1)
        × ((enqueue maxsize job q).1 ≡ none)
  enqueue-accounted maxsize job q pos (p, known) fits =
      elim (Bool-cases (leb maxsize (length q.heap))) [
        | inl full ↦
            let (w, worst) = worst_of_cons q.heap (ground arith) in
            elim (enqueue_lem maxsize job q p w (ground arith) known worst) [
              | inl (l, e) ↦ rw e (fits, omega arith, refl)
              | inr (l, (s, i, e)) ↦
                  let k = length-remove_seq w s q.heap i.there in
                  let g =
                    length-heappush (record { priority = p; seq = q.seq; job = job })
                      (remove_seq s q.heap) in
                  rw e (omega arith, omega arith, refl)
            ]
        | inr room ↦
            let g = length-heappush (record { priority = p; seq = q.seq; job = job }) q.heap in
            unfold enqueue in simp (room, known) (ground arith, omega arith, refl)
      ]

  abbrev pub submits : List (Op P) → ℕ
  submits [] = 0
  submits (submit job ∷ ops) = suc (submits ops)
  submits (_ ∷ ops) = submits ops

  abbrev pub IsKnownOp : Op P → Type 0
  IsKnownOp (submit job) = IsKnown job
  IsKnownOp _ = Unit

  abbrev submitted : Op P → ℕ
  submitted (submit job) = 1
  submitted _ = 0

  take_accounted :
      (crashes : LlmJob P → Bool) (stopped : Bool) (h : List (Entry P)) (q : LlmQueue P)
      → q.heap ≡ h
      → (length (worker_on crashes (if stopped then returns else pop_from h) q).0.heap
          ≤ length q.heap)
        × (accounted (worker_on crashes (if stopped then returns else pop_from h) q).0
            ≡ accounted q)
  unfolding safe_process
  take_accounted crashes true h q e = (omega arith, refl)
  take_accounted crashes false [] q e = (omega arith, refl)
  take_accounted crashes false (x ∷ rest) q e =
      let l : length q.heap ≡ suc (length rest) = ap length e in
      (omega arith, omega (arith, length-append q.processed (x.job ∷ [])))

  drain_accounted :
      (crashes : LlmJob P → Bool) (h : List (Entry P)) (q : LlmQueue P)
      → q.heap ≡ h
      → (length (drain_from crashes h q).0.heap ≤ length q.heap)
        × (accounted (drain_from crashes h q).0 ≡ accounted q)
  unfolding safe_process
  drain_accounted crashes [] q e = (omega arith, refl)
  drain_accounted crashes (x ∷ rest) q e =
      let l : length q.heap ≡ suc (length rest) = ap length e in
      (omega arith, omega (arith, length-append q.processed (x.job ∷ [])))

  step-accounted :
      (maxsize : ℕ) (crashes : LlmJob P → Bool) (q : LlmQueue P) (op : Op P)
      → 0 < maxsize
      → IsKnownOp op
      → length q.heap ≤ maxsize
      → (length (step maxsize crashes q op).heap ≤ maxsize)
        × (accounted (step maxsize crashes q op) ≡ accounted q + submitted op)
  unfolding step
  step-accounted maxsize crashes q (submit job) pos k fits =
      let (a, b, c) = enqueue-accounted maxsize job q pos k fits in (a, b)
  step-accounted maxsize crashes q round pos k fits =
      unfold run_round in
      let (a, b) = take_accounted crashes q.stopping q.heap q refl in (omega arith, omega arith)
  step-accounted maxsize crashes q drain pos k fits =
      unfold drain_once in
      let (a, b) = drain_accounted crashes q.heap q refl in (omega arith, omega arith)
  step-accounted maxsize crashes q halt pos k fits = unfold stop in (fits, omega arith)

  submits-cons : (op : Op P) (ops : List (Op P)) → submits (op ∷ ops) ≡ submitted op + submits ops
  submits-cons (submit job) ops = omega arith
  submits-cons round ops = omega arith
  submits-cons drain ops = omega arith
  submits-cons halt ops = omega arith

  -- With a positive maximal size and jobs of known roles, the queue never outgrows the maximal size,
  -- and no job is lost without a trace: what is queued, dropped and processed grows by exactly the
  -- number of jobs submitted.
  pub run-accounted :
      (maxsize : ℕ) (crashes : LlmJob P → Bool) (q : LlmQueue P) (ops : List (Op P))
      → 0 < maxsize
      → All IsKnownOp ops
      → length q.heap ≤ maxsize
      → (length (run maxsize crashes q ops).heap ≤ maxsize)
        × (accounted (run maxsize crashes q ops) ≡ accounted q + submits ops)
  unfolding run
  run-accounted maxsize crashes q [] pos k fits = (fits, omega arith)
  run-accounted maxsize crashes q (op ∷ ops) pos k fits =
      let (l, a) = step-accounted maxsize crashes q op pos k.0 fits in
      let (m, b) = run-accounted maxsize crashes (step maxsize crashes q op) ops pos k.1 l in
      (m, omega (arith, submits-cons op ops))
