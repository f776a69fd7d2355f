-- ===== src/LlmQueue/Order.antt =====
-- The order in which jobs leave the queue.
use reportportal_analyzer_ng.Prelude.{
  ◌⊎◌, ltb, leb, if◌then◌else◌, Bool-cases, length, All, ℕ, ◌+◌, ◌<◌, ◌≡◌, refl, inl, inr, Bool,
  true, false, Option, none, some, List, [], ◌∷◌, arith,
}
use reportportal_analyzer_ng.LlmQueue.{
  role_priority, Verdict, rejected, admitted, raised, LlmJob, Entry, Popped, waits, returns, takes,
  LlmQueue, init, before, worst_priority, oldest_of, judge_incoming, evict_worst, push_job,
  after_room, enqueue, pop_from, pop_blocking, safe_process, drain_from, drain_once, worker_on,
  run_round, stop, Op, submit, round, drain, halt, step, run,
}
use reportportal_analyzer_ng.LlmQueue.Heap.{
  IsSorted, All-heappush, All-removal, IsDistinct, heappush-IsDistinct, removal-IsDistinct,
  heappush-IsSorted, removal-IsSorted, All-IsOther,
}

module _ {P : Type 0} where
  -- The heap is in order, its numbers are distinct, and each has been given out.
  pub record IsOrdered (q : LlmQueue P) : Type 0 where
    pub sorted : IsSorted q.heap
    pub numbered : All (λ e. e.seq < q.seq) q.heap
    pub distinct : IsDistinct q.heap

  numbered_later :
      (k : ℕ) (h : List (Entry P)) → All (λ e. e.seq < k) h → All (λ e. e.seq < k + 1) h
  numbered_later k [] a = tt
  numbered_later k (e ∷ rest) a = (omega arith, numbered_later k rest a.1)

  push_job-IsOrdered :
      (o : Option ℕ) (job : LlmJob P) (q : LlmQueue P)
      → IsOrdered q
      → IsOrdered (push_job o job q).0
  push_job-IsOrdered none job q v = v
  push_job-IsOrdered (some p) job q v =
      let e : Entry P = record { priority = p; seq = q.seq; job = job } in
      record {
        sorted = heappush-IsSorted e q.heap (All-IsOther e q.heap v.numbered) v.sorted;
        distinct = heappush-IsDistinct e q.heap (All-IsOther e q.heap v.numbered) v.distinct;
        numbered =
            All-heappush (λ f. f.seq < q.seq + 1) e q.heap (omega arith)
              (numbered_later q.seq q.heap v.numbered);
      }

  judge-IsOrdered :
      (o : Option ℕ) (worst : ℕ) (q : LlmQueue P)
      → IsOrdered q
      → IsOrdered (judge_incoming o worst q).0
  judge-IsOrdered none worst q v = v
  judge-IsOrdered (some p) worst q v = elim (Bool-cases (ltb worst p)) [
    | inl b ↦ rw b v
    | inr b ↦ rw b (record {
      sorted = removal-IsSorted (oldest_of worst q.heap) q.heap v.distinct v.sorted;
      distinct = removal-IsDistinct (oldest_of worst q.heap) q.heap v.distinct;
      numbered = All-removal (λ e. e.seq < q.seq) (oldest_of worst q.heap) q.heap v.numbered;
    })
  ]

  evict-IsOrdered :
      (o : Option ℕ) (job : LlmJob P) (q : LlmQueue P)
      → IsOrdered q
      → IsOrdered (evict_worst o job q).0
  evict-IsOrdered none job q v = v
  evict-IsOrdered (some w) job q v =
      judge-IsOrdered (role_priority job.role) w (record q { dropped = q.dropped + 1 })
        (record { sorted = v.sorted; numbered = v.numbered; distinct = v.distinct })

  room-IsOrdered :
      (job : LlmJob P) (r : LlmQueue P × Verdict) → IsOrdered r.0 → IsOrdered (after_room job r).0
  room-IsOrdered job (q, rejected) v = v
  room-IsOrdered job (q, admitted) v = push_job-IsOrdered (role_priority job.role) job q v
  room-IsOrdered job (q, raised f) v = v

  pub enqueue-IsOrdered :
      (maxsize : ℕ) (job : LlmJob P) (q : LlmQueue P)
      → IsOrdered q
      → IsOrdered (enqueue maxsize job q).0
  unfolding enqueue
  enqueue-IsOrdered maxsize job q v = elim (Bool-cases (leb maxsize (length q.heap))) [
    | inl b ↦ rw b (room-IsOrdered job _ (evict-IsOrdered (worst_priority q.heap) job q v))
    | inr b ↦ rw b (push_job-IsOrdered (role_priority job.role) job q v)
  ]

  drain-IsOrdered :
      (crashes : LlmJob P → Bool) (h : List (Entry P)) (q : LlmQueue P)
      → q.heap ≡ h
      → IsOrdered q
      → IsOrdered (drain_from crashes h q).0
  unfolding drain_once
  drain-IsOrdered crashes [] q e v = v
  drain-IsOrdered crashes (x ∷ rest) q e v =
      let s : IsSorted (x ∷ rest) = rw e at v.sorted in
      let n : All (λ f. f.seq < q.seq) (x ∷ rest) = rw e at v.numbered in
      let d : IsDistinct (x ∷ rest) = rw e at v.distinct in
      record { sorted = s.1; numbered = n.1; distinct = d.1 }

  round-IsOrdered :
      (crashes : LlmJob P → Bool) (stopped : Bool) (h : List (Entry P)) (q : LlmQueue P)
      → q.heap ≡ h
      → IsOrdered q
      → IsOrdered (worker_on crashes (if stopped then returns else pop_from h) q).0
  unfolding safe_process
  round-IsOrdered crashes true h q e v = v
  round-IsOrdered crashes false [] q e v = v
  round-IsOrdered crashes false (x ∷ rest) q e v =
      let s : IsSorted (x ∷ rest) = rw e at v.sorted in
      let n : All (λ f. f.seq < q.seq) (x ∷ rest) = rw e at v.numbered in
      let d : IsDistinct (x ∷ rest) = rw e at v.distinct in
      record { sorted = s.1; numbered = n.1; distinct = d.1 }

  pub step-IsOrdered :
      (maxsize : ℕ) (crashes : LlmJob P → Bool) (q : LlmQueue P) (op : Op P)
      → IsOrdered q
      → IsOrdered (step maxsize crashes q op)
  unfolding step
  step-IsOrdered maxsize crashes q (submit job) v = enqueue-IsOrdered maxsize job q v
  step-IsOrdered maxsize crashes q round v =
      unfold run_round in round-IsOrdered crashes q.stopping q.heap q refl v
  step-IsOrdered maxsize crashes q drain v =
      unfold drain_once in drain-IsOrdered crashes q.heap q refl v
  step-IsOrdered maxsize crashes q halt v =
      unfold stop in record { sorted = v.sorted; numbered = v.numbered; distinct = v.distinct }

  pub run-IsOrdered :
      (maxsize : ℕ) (crashes : LlmJob P → Bool) (q : LlmQueue P) (ops : List (Op P))
      → IsOrdered q
      → IsOrdered (run maxsize crashes q ops)
  unfolding run
  run-IsOrdered maxsize crashes q [] v = v
  run-IsOrdered maxsize crashes q (op ∷ ops) v =
      run-IsOrdered maxsize crashes (step maxsize crashes q op) ops
        (step-IsOrdered maxsize crashes q op v)

  -- more urgent, or as urgent and submitted earlier
  abbrev pub IsFirst : Entry P → Entry P → Type 0
  IsFirst e f = (e.priority < f.priority) ⊎ ((e.priority ≡ f.priority) × (e.seq < f.seq))

  -- the job and the heap that a pop gives split the heap into its first entry and the others
  abbrev pub IsLeastOf : List (Entry P) → Popped P → Type 0
  IsLeastOf [] p = p ≡ waits
  IsLeastOf (e ∷ rest) p = (p ≡ takes e.job rest) × All (λ f. IsFirst e f) rest

  before-IsFirst : (e f : Entry P) → before e f ≡ true → IsFirst e f
  before-IsFirst e f h = elim (Bool-cases (ltb e.priority f.priority)) [
    | inl k ↦ inl (ground arith)
    | inr k ↦ inr (ground arith, ground arith)
  ]

  All-IsFirst :
      (e : Entry P) (h : List (Entry P)) → All (λ f. before e f ≡ true) h → All (λ f. IsFirst e f) h
  All-IsFirst e [] a = tt
  All-IsFirst e (f ∷ h) a = (before-IsFirst e f a.0, All-IsFirst e h a.1)

  pop_from-IsLeastOf : (h : List (Entry P)) → IsSorted h → IsLeastOf h (pop_from h)
  pop_from-IsLeastOf [] s = refl
  pop_from-IsLeastOf (e ∷ rest) s = (refl, All-IsFirst e rest s.0)

  -- Whatever calls came before, a worker that is not stopped takes the job of an entry that is more
  -- urgent than every other, or as urgent and submitted earlier (the least number of `role_priority` is
  -- the most urgent), and leaves the others; it waits exactly at an empty heap.
  pub pop-least :
      (maxsize : ℕ) (crashes : LlmJob P → Bool) (ops : List (Op P))
      → (run maxsize crashes init ops).stopping ≡ false
      → IsLeastOf (run maxsize crashes init ops).heap (pop_blocking (run maxsize crashes init ops))
  unfolding pop_blocking
  pop-least maxsize crashes ops h =
      let v =
        run-IsOrdered maxsize crashes init ops
          (record { sorted = tt; numbered = tt; distinct = tt }) in
      rw h (pop_from-IsLeastOf (run maxsize crashes init ops).heap v.sorted)
