-- ===== src/Dispatcher.antt =====
-- src/analyzer_ng/amqp/dispatcher.py: the routing table's contract (adapt, handle, serialize), and what
-- a worker does with one message: retries, replies, dead letters. A handler's answer may differ from
-- one attempt to the next, so it is told the number of the attempt. Times are left out of the metrics.
pub mod Retry
mod Tests
use reportportal_analyzer_ng.Prelude.{
  leb, if◌then◌else◌, is_empty, ℕ, zero, suc, ◌+◌, ◌-◌, Bool, true, not, ◌&&◌, ◌||◌, Option, none,
  some, List, [], ◌∷◌, ◌++◌,
}
use reportportal_analyzer_ng.Text.{Text, codes, text_eq, member}

-- the classes of exceptions that the worker tells apart
pub data Failure : Type 0 where
  unknown_routing_key validation_error task_timeout other : Failure

pub data Result (A : Type 0) : Type 0 where
  ok : A → Result A
  raised : Failure → Result A

-- `Q` is a request and `R` a response; none is Python's `None`
pub record RouteSpec (B Q R : Type 0) : Type 0 where
  pub adapt : B → Result Q
  pub handler : ℕ → Q → Result (Option R)
  pub serializer : Option (R → Text)

pub record ProcessingItem (B : Type 0) : Type 0 where
  pub routing_key : Text
  pub reply_to : Option Text
  pub correlation_id : Text
  pub body : B
  pub retries : ℕ

-- the routes whose results go to the reply exchange when nobody waits for a reply
abbrev pub result_queue_routes : List Text
result_queue_routes = codes "analyze" ∷ codes "analyze_item_early" ∷ []

pub data Outcome : Type 0 where
  success unknown failed : Outcome

pub record DeadLetter (B : Type 0) : Type 0 where
  pub body : B
  pub error : Failure
  pub routing_key : Text
  pub retries : ℕ

-- what has reached the publisher and the metrics, the latest last
pub record Sent (B : Type 0) : Type 0 where
  pub replies : List (Text × Text × Text)
  pub results : List Text
  pub dead_letters : List (DeadLetter B)
  pub metrics : List (Text × Outcome)

-- The settings, and how the surroundings behave: whether the publisher takes a message or raises,
-- whether the watchdog has fired by the end of an attempt, whether a shutdown ends a wait.
pub record Worker : Type 0 where
  pub max_retries : ℕ
  pub retry_delays : List ℕ
  pub result_exchange : Text
  pub takes_reply : Bool
  pub takes_result : Bool
  pub takes_dead_letter : Bool
  pub overran : ℕ → Bool
  pub stops : ℕ → Bool

-- how the loop ends; `starved` is out of fuel, `crashed` an exception that leaves it
pub data End : Type 0 where
  replied ignored gave_up shut_down crashed starved : End

module _ {A C : Type 0} where
  abbrev pub and_then : Result A → (A → Result C) → Result C
  and_then (ok a) f = f a
  and_then (raised e) f = raised e

module _ {R : Type 0} where
  abbrev serialized : Option (R → Text) → Option R → Result (Option Text)
  serialized serializer none = ok none
  serialized none (some response) = ok none
  serialized (some serialize) (some response) = ok (some (serialize response))

-- a `reply_to` that Python takes for true
abbrev pub awaited : Option Text → Option Text
awaited none = none
awaited (some []) = none
awaited (some (c ∷ t)) = some (c ∷ t)

-- whether a result goes to the reply exchange
abbrev pub is_published : Worker → Text → Text → Bool
is_published w key reply =
    member key result_queue_routes
    && not (is_empty w.result_exchange)
    && not (text_eq reply (codes "[]") || is_empty reply)

-- `delays[min(attempt, len(delays) - 1)]`; an empty list has no such element
abbrev pub delay_at : List ℕ → ℕ → Option ℕ
delay_at [] attempt = none
delay_at (d ∷ []) attempt = some d
delay_at (d ∷ e ∷ ds) zero = some d
delay_at (d ∷ e ∷ ds) (suc attempt) = delay_at (e ∷ ds) attempt

abbrev pub watched : Bool → Result (Option Text) → Result (Option Text)
watched late (raised e) = raised e
watched late (ok reply) = if late then raised task_timeout else ok reply

module _ {B Q R : Type 0} where
  abbrev routed : Option (RouteSpec B Q R) → ℕ → B → Result (Option Text)
  routed none attempt body = raised unknown_routing_key
  routed (some spec) attempt body =
      and_then (spec.adapt body)
        (λ request. and_then (spec.handler attempt request) (serialized spec.serializer))

  pub process : (Text → Option (RouteSpec B Q R)) → Text → ℕ → B → Result (Option Text)
  process routes routing_key attempt body = routed (routes routing_key) attempt body

module _ {B : Type 0} where
  abbrev pub observe : Text → Outcome → Sent B → Sent B
  observe key outcome sent = record sent { metrics = sent.metrics ++ (key, outcome) ∷ [] }

  abbrev pub deliver : Worker → ProcessingItem B → Text → Option Text → Sent B → Sent B
  deliver w item reply (some to) sent =
      if w.takes_reply
      then record sent { replies = sent.replies ++ (to, item.correlation_id, reply) ∷ [] }
      else sent
  deliver w item reply none sent =
      if is_published w item.routing_key reply && w.takes_result
      then record sent { results = sent.results ++ reply ∷ [] }
      else sent

  abbrev publish : Worker → ProcessingItem B → Option Text → Sent B → Sent B
  publish w item none sent = sent
  publish w item (some reply) sent = deliver w item reply (awaited item.reply_to) sent

  pub publish_reply : Worker → ProcessingItem B → Option Text → Sent B → Sent B
  publish_reply w item reply sent = publish w item reply sent

  pub dead_letter : Worker → ProcessingItem B → Failure → Sent B → Sent B
  dead_letter w item e sent =
      let letter : DeadLetter B = record {
        body = item.body;
        error = e;
        routing_key = item.routing_key;
        retries = item.retries;
      } in
      if w.takes_dead_letter
      then record sent { dead_letters = sent.dead_letters ++ letter ∷ [] }
      else sent

  pub fail : Worker → ProcessingItem B → Failure → Sent B → Sent B
  unfolding dead_letter
  fail w item e sent = dead_letter w item e (observe item.routing_key failed sent)

  abbrev pub waited :
      Worker → ProcessingItem B → ℕ → Sent B → Option ℕ → Sent B × End → Sent B × End
  waited w item attempt sent none later = (sent, crashed)
  waited w item attempt sent (some delay) later =
      if w.stops attempt then (sent, shut_down) else later

  -- after one attempt: `later` is what the loop does from the next one on
  abbrev pub after :
      Worker → ProcessingItem B → ℕ → Sent B → Result (Option Text) → Sent B × End → Sent B × End
  after w item attempt sent (ok reply) later =
      (observe item.routing_key success (publish_reply w item reply sent), replied)
  after w item attempt sent (raised unknown_routing_key) later =
      (observe item.routing_key unknown sent, ignored)
  after w item attempt sent (raised validation_error) later =
      (fail w item validation_error sent, gave_up)
  after w item attempt sent (raised task_timeout) later = (fail w item task_timeout sent, gave_up)
  after w item attempt sent (raised other) later =
      if leb w.max_retries attempt
      then (fail w item other sent, gave_up)
      else waited w item attempt sent (delay_at w.retry_delays attempt) later

  -- the loop from an attempt on
  pub process_from :
      Worker → (ℕ → Result (Option Text)) → ℕ → ℕ → ProcessingItem B → Sent B → Sent B × End
  unfolding publish_reply fail
  process_from w answer zero attempt item sent = (sent, starved)
  process_from w answer (suc fuel) attempt item sent =
      let later =
        process_from w answer fuel (attempt + 1) (record item { retries = attempt + 1 }) sent in
      after w item attempt sent (watched (w.overran attempt) (answer attempt)) later

  module _ {Q R : Type 0} where
    pub process_bound :
        Worker → (Text → Option (RouteSpec B Q R)) → ProcessingItem B → Sent B → Sent B × End
    unfolding process_from process
    process_bound w routes item sent =
        process_from w (λ attempt. process routes item.routing_key attempt item.body)
          (suc w.max_retries) 0 item sent
