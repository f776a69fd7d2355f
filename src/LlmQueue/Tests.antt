-- ===== src/LlmQueue/Tests.antt =====
-- The queue with room for two jobs.
use reportportal_analyzer_ng.Prelude.{
  length, ℕ, ◌+◌, ◌≤◌, String, ◌≡◌, refl, Bool, false, List, [], ◌∷◌, arith,
}
use reportportal_analyzer_ng.LlmQueue.{
  LlmJob, LlmQueue, init, heappush, worst_priority, enqueue, pop_blocking, Op, submit, step, run,
}
use reportportal_analyzer_ng.LlmQueue.Order.{IsLeastOf, pop-least}
use reportportal_analyzer_ng.LlmQueue.Bounds.{accounted, submits, run-accounted}

abbrev job : String → ℕ → LlmJob Unit
job role item = record { role = role; project_id = 1; item_id = item; payload = tt }

abbrev calm : LlmJob Unit → Bool
calm j = false

abbrev two_jobs : LlmQueue Unit
two_jobs = record {
  heap =
      record { priority = 1; seq = 0; job = job "coldstart" 1 }
      ∷ record { priority = 2; seq = 1; job = job "explainer" 2 }
      ∷ [];
  seq = 2;
  stopping = false;
  dropped = 0;
  processed = [];
  crashed = 0;
}

abbrev calls : List (Op Unit)
calls = submit (job "explainer" 1) ∷ submit (job "judge" 2) ∷ submit (job "coldstart" 3) ∷ []

pop-least_example : IsLeastOf (run 2 calm init calls).heap (pop_blocking (run 2 calm init calls))
unfolding run step enqueue heappush worst_priority
pop-least_example = pop-least 2 calm calls refl

run-accounted_example :
    (length (run 2 calm two_jobs calls).heap ≤ 2)
    × (accounted (run 2 calm two_jobs calls) ≡ accounted two_jobs + submits calls)
run-accounted_example =
    run-accounted 2 calm two_jobs calls (omega arith) ((2, refl), ((0, refl), ((1, refl), tt)))
      (omega arith)
