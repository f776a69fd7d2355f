-- ===== src/LlmQueue.antt =====
-- src/analyzer_ng/llm/queue.py: the bounded priority queue of the LLM worker.
-- Every method holds the lock, so each is one step on the state. `heapq` promises of
-- its array only that the least entry comes first, so `heappush` keeps the heap sorted by `(priority,
-- seq)` and `heapify` sorts it; between the removal of an entry and `heapify` it is in no order.
-- A job counts as processed from the moment that it is taken; the worker then runs it unlocked.
-- `dropped` counts the calls of `on_drop`. `crashes` is what the role's `process` does with a job.
pub mod Heap
pub mod Order
pub mod Bounds
pub mod Overflow
mod Tests
use reportportal_analyzer_ng.Prelude.{
  ltb, leb, ◌==◌, if◌then◌else◌, length, ℕ, ◌+◌, min, max, String, Bool, true, false, not, ◌&&◌,
  ◌||◌, Option, none, some, List, [], ◌∷◌, ◌++◌, str_eq,
}

pub data Fault : Type 0 where
  unknown_role empty_heap : Fault

abbrev pub role_priority : String → Option ℕ
role_priority role =
    if str_eq role "judge"
    then some 0
    else if str_eq role "extractor"
    then some 1
    else if str_eq role "coldstart"
    then some 1
    else if str_eq role "explainer"
    then some 2
    else if str_eq role "abstain_explainer"
    then some 2
    else none

-- whether the incoming job was rejected, or the fault that was raised
pub data Verdict : Type 0 where
  rejected admitted : Verdict
  raised : Fault → Verdict

pub record LlmJob (P : Type 0) : Type 0 where
  pub role : String
  pub project_id : ℕ
  pub item_id : ℕ
  pub payload : P

pub record Entry (P : Type 0) : Type 0 where
  pub priority : ℕ
  pub seq : ℕ
  pub job : LlmJob P

-- what a worker that looks at the queue does: waits, returns, or takes a job
pub data Popped (P : Type 0) : Type 0 where
  waits returns : Popped P
  takes : LlmJob P → List (Entry P) → Popped P

pub record LlmQueue (P : Type 0) : Type 0 where
  pub heap : List (Entry P)
  pub seq : ℕ
  pub stopping : Bool
  pub dropped : ℕ
  pub processed : List (LlmJob P)
  pub crashed : ℕ

abbrev pub init : {P : Type 0} → LlmQueue P
init = record { heap = []; seq = 0; stopping = false; dropped = 0; processed = []; crashed = 0 }

module _ {P : Type 0} where
  -- `(priority, seq)` in lexicographic order; no two entries share a `seq`
  abbrev pub before : Entry P → Entry P → Bool
  before e f = ltb e.priority f.priority || e.priority == f.priority && ltb e.seq f.seq

  pub heappush : Entry P → List (Entry P) → List (Entry P)
  heappush e [] = e ∷ []
  heappush e (f ∷ rest) = if before e f then e ∷ f ∷ rest else f ∷ heappush e rest

  -- `max(entry[0] for entry in heap)`, which raises on an empty heap
  pub worst_priority : List (Entry P) → Option ℕ
  worst_priority [] = none
  worst_priority (e ∷ rest) = elim (worst_priority rest) [
    | none ↦ some e.priority
    | some p ↦ some (max e.priority p)
  ]

  -- the least insertion sequence among the entries of a priority
  pub oldest_of : ℕ → List (Entry P) → Option ℕ
  oldest_of p [] = none
  oldest_of p (e ∷ rest) =
      let found = oldest_of p rest in
      if e.priority == p
      then elim found [ none ↦ some e.seq | some s ↦ some (min e.seq s) ]
      else found

  abbrev pub carry : Entry P → List (Entry P) → List (Entry P)
  carry e [] = e ∷ []
  carry e (last ∷ rest) = last ∷ e ∷ rest

  -- the last entry first, before the others
  pub last_first : List (Entry P) → List (Entry P)
  last_first [] = []
  last_first (e ∷ rest) = carry e (last_first rest)

  -- `heap[idx] = heap[-1]; heap.pop()` at the index of a sequence number
  pub swap_out : ℕ → List (Entry P) → List (Entry P)
  unfolding last_first
  swap_out s [] = []
  swap_out s (e ∷ rest) =
      let others = swap_out s rest in if e.seq == s then last_first rest else e ∷ others

  pub heapify : List (Entry P) → List (Entry P)
  unfolding heappush
  heapify [] = []
  heapify (e ∷ rest) = heappush e (heapify rest)

  pub remove_seq : ℕ → List (Entry P) → List (Entry P)
  unfolding swap_out heapify
  remove_seq s h = heapify (swap_out s h)

  abbrev pub removal : Option ℕ → List (Entry P) → List (Entry P)
  removal none h = h
  removal (some s) h = remove_seq s h

  abbrev judge_incoming : Option ℕ → ℕ → LlmQueue P → LlmQueue P × Verdict
  judge_incoming none worst q = (q, raised unknown_role)
  judge_incoming (some priority) worst q =
      if ltb worst priority
      then (q, rejected)
      else (record q { heap = removal (oldest_of worst q.heap) q.heap }, admitted)

  abbrev evict_worst : Option ℕ → LlmJob P → LlmQueue P → LlmQueue P × Verdict
  evict_worst none incoming q = (q, raised empty_heap)
  evict_worst (some worst) incoming q =
      judge_incoming (role_priority incoming.role) worst (record q { dropped = q.dropped + 1 })

  unfoldable pub reject_or_evict_locked : LlmJob P → LlmQueue P → LlmQueue P × Verdict
  reject_or_evict_locked incoming q = evict_worst (worst_priority q.heap) incoming q

  abbrev push_job : Option ℕ → LlmJob P → LlmQueue P → LlmQueue P × Option Fault
  push_job none job q = (q, some unknown_role)
  push_job (some priority) job q = (
    record q {
      heap = heappush (record { priority = priority; seq = q.seq; job = job }) q.heap;
      seq = q.seq + 1;
    },
    none,
  )

  abbrev after_room : LlmJob P → LlmQueue P × Verdict → LlmQueue P × Option Fault
  after_room job (q, rejected) = (q, none)
  after_room job (q, admitted) = push_job (role_priority job.role) job q
  after_room job (q, raised f) = (q, some f)

  pub enqueue : ℕ → LlmJob P → LlmQueue P → LlmQueue P × Option Fault
  unfolding reject_or_evict_locked
  enqueue maxsize job q =
      if leb maxsize (length q.heap)
      then after_room job (reject_or_evict_locked job q)
      else push_job (role_priority job.role) job q

  abbrev pub qsize : LlmQueue P → ℕ
  qsize q = length q.heap

  abbrev pop_from : List (Entry P) → Popped P
  pop_from [] = waits
  pop_from (e ∷ rest) = takes e.job rest

  pub pop_blocking : LlmQueue P → Popped P
  pop_blocking q = if q.stopping then returns else pop_from q.heap

  -- an exception of the role is logged and does not leave the method
  pub safe_process : (LlmJob P → Bool) → LlmJob P → LlmQueue P → LlmQueue P
  safe_process crashes job q = record q {
    processed = q.processed ++ job ∷ [];
    crashed = if crashes job then q.crashed + 1 else q.crashed;
  }

  abbrev drain_from : (LlmJob P → Bool) → List (Entry P) → LlmQueue P → LlmQueue P × Bool
  drain_from crashes [] q = (q, false)
  drain_from crashes (e ∷ rest) q = (safe_process crashes e.job (record q { heap = rest }), true)

  pub drain_once : (LlmJob P → Bool) → LlmQueue P → LlmQueue P × Bool
  unfolding safe_process
  drain_once crashes q = drain_from crashes q.heap q

  abbrev worker_on : (LlmJob P → Bool) → Popped P → LlmQueue P → LlmQueue P × Bool
  worker_on crashes waits q = (q, true)
  worker_on crashes returns q = (q, false)
  worker_on crashes (takes job rest) q = (safe_process crashes job (record q { heap = rest }), true)

  -- one round of the worker's loop; false when the thread ends
  pub run_round : (LlmJob P → Bool) → LlmQueue P → LlmQueue P × Bool
  unfolding pop_blocking safe_process
  run_round crashes q = worker_on crashes (pop_blocking q) q

  pub stop : LlmQueue P → LlmQueue P
  stop q = record q { stopping = true }

pub data Op (P : Type 0) : Type 0 where
  submit : LlmJob P → Op P
  round : Op P
  drain : Op P
  halt : Op P

module _ {P : Type 0} where
  pub step : ℕ → (LlmJob P → Bool) → LlmQueue P → Op P → LlmQueue P
  step maxsize crashes q (submit job) = (enqueue maxsize job q).0
  step maxsize crashes q round = (run_round crashes q).0
  step maxsize crashes q drain = (drain_once crashes q).0
  step maxsize crashes q halt = stop q

  pub run : ℕ → (LlmJob P → Bool) → LlmQueue P → List (Op P) → LlmQueue P
  run maxsize crashes q [] = q
  run maxsize crashes q (op ∷ ops) = run maxsize crashes (step maxsize crashes q op) ops
