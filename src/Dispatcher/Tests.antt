-- ===== src/Dispatcher/Tests.antt =====
-- A worker with the service's settings, and a route whose handler fails once.
use reportportal_analyzer_ng.Prelude.{
  ◌==◌, if◌then◌else◌, ℕ, ◌≡◌, refl, true, false, Option, none, some, [], ◌∷◌,
}
use reportportal_analyzer_ng.Text.{Text, codes, text_eq}
use reportportal_analyzer_ng.Dispatcher.{
  other, ok, raised, RouteSpec, ProcessingItem, Sent, Worker, process, process_bound,
}
use reportportal_analyzer_ng.Dispatcher.Retry.{IsSettled, process_bound-IsSettled}

abbrev worker : Worker
worker = record {
  max_retries = 3;
  retry_delays = 1 ∷ 2 ∷ 4 ∷ [];
  result_exchange = codes "analysis";
  takes_reply = true;
  takes_result = true;
  takes_dead_letter = true;
  overran = λ attempt. false;
  stops = λ attempt. false;
}

abbrev flaky : RouteSpec ℕ ℕ ℕ
flaky = record {
  adapt = ok;
  handler = λ attempt request. if attempt == 0 then raised other else ok (some request);
  serializer = some (λ response. response ∷ []);
}

abbrev routes : Text → Option (RouteSpec ℕ ℕ ℕ)
routes key = if text_eq key (codes "analyze") then some flaky else none

abbrev item : ProcessingItem ℕ
item = record {
  routing_key = codes "analyze";
  reply_to = none;
  correlation_id = codes "c1";
  body = 7;
  retries = 0;
}

abbrev nothing : Sent ℕ
nothing = record { replies = []; results = []; dead_letters = []; metrics = [] }

flaky_replies : (process_bound worker routes item nothing).0.results ≡ (7 ∷ []) ∷ []
unfolding process_bound
flaky_replies = refl

process_bound-IsSettled_example :
    IsSettled worker
      (λ attempt. process routes (codes "analyze") attempt 7)
      item
      nothing
      (process_bound worker routes item nothing)
process_bound-IsSettled_example = process_bound-IsSettled worker routes item nothing
