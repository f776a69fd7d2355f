-- ===== src/Engine/Run.antt =====
-- A role call of src/analyzer_ng/llm/engine.py. The parts of a role that are not data (the parser, the
-- schema check, `post_validate`) are functions of the role; the sidecar is a function of what the
-- requests of one call differ in, the seed and the token budget; the cache key is a number for the
-- hash of the model, the role and the prompt in a project.
pub mod Outcomes
pub mod Stored
use reportportal_analyzer_ng.Prelude.{
  leb, ◌==◌, if◌then◌else◌, keep, is_empty, ℕ, ◌+◌, ◌*◌, Bool, true, false, not, Option, none, some,
  List, [], ◌∷◌, ◌++◌,
}
use reportportal_analyzer_ng.Text.{Text}
use reportportal_analyzer_ng.Breaker.{
  Config, CircuitBreaker, allow, record_response, record_failure,
}
use reportportal_analyzer_ng.Engine.Screen.{Output, truncated_fields, mark_truncated}

pub data Outcome : Type 0 where
  answered schema_fail validation_fail timeout breaker_open : Outcome

-- a cached body: an answer, or the negative marker with its stored outcome
pub data Body (O : Type 0) : Type 0 where
  answer : Output O → Body O
  negative : Outcome → Body O

pub record Row (O : Type 0) : Type 0 where
  pub key : ℕ
  pub created_at : ℕ  -- seconds
  pub body : Body O

pub record Role (O : Type 0) : Type 0 where
  pub ttl_days : ℕ
  pub negative_ttl_days : Option ℕ
  pub num_predict : ℕ
  pub free_text_fields : List Text
  pub loads : Text → Option (Output O)
  pub is_valid : Output O → Bool
  pub post_validate : Output O → Bool

pub record Response : Type 0 where
  pub tool_calls : Bool
  pub content : Text
  pub finish_reason : Option Text

-- the time when the request ends, and the response unless the transport failed
pub record Reply : Type 0 where
  pub ended_at : ℕ
  pub response : Option Response

abbrev pub Chat : Type 0
Chat = ℕ → ℕ → Reply

pub record Event (O : Type 0) : Type 0 where
  pub outcome : Outcome
  pub output : Option (Output O)
  pub cache_hit : Bool

-- `requests` are the seeds and budgets sent so far
pub record Engine (O : Type 0) : Type 0 where
  pub breaker : CircuitBreaker
  pub cache : List (Row O)
  pub events : List (Event O)
  pub requests : List (ℕ × ℕ)

abbrev pub day : ℕ
day = 86400

abbrev pub is_failure : Outcome → Bool
is_failure schema_fail = true
is_failure validation_fail = true
is_failure _ = false

abbrev pub is_cacheable : Outcome → Bool
is_cacheable validation_fail = true
is_cacheable _ = false

pub record Attempt (O : Type 0) : Type 0 where
  pub outcome : Outcome
  pub output : Option (Output O)
  pub finish : Option Text

module _ {O : Type 0} where
  unfoldable pub get_fresh : List (Row O) → ℕ → ℕ → ℕ → Option (Body O)
  get_fresh [] key ttl_days now = none
  get_fresh (r ∷ rs) key ttl_days now =
      let later = get_fresh rs key ttl_days now in
      if r.key == key
      then (if leb now (r.created_at + ttl_days * day) then some r.body else none)
      else later

  -- an upsert: the row of a key is replaced
  unfoldable pub put : List (Row O) → ℕ → ℕ → Body O → List (Row O)
  put rows key now body =
      record { key = key; created_at = now; body = body } ∷ keep (λ r. not (r.key == key)) rows

  abbrev negative_outcome : Option (Body O) → Option Outcome
  negative_outcome none = none
  negative_outcome (some (answer o)) = none
  negative_outcome (some (negative o)) = some (if is_cacheable o then o else validation_fail)

  abbrev windowed : List (Row O) → ℕ → ℕ → Option ℕ → Option Outcome
  windowed rows key now none = none
  windowed rows key now (some ttl) = negative_outcome (get_fresh rows key ttl now)

  unfoldable pub fresh_negative_outcome : Role O → List (Row O) → ℕ → ℕ → Option Outcome
  unfolding get_fresh
  fresh_negative_outcome role rows key now = windowed rows key now role.negative_ttl_days

  -- the verdict on a response, an answer only where every check passes
  abbrev pub checked : Role O → Option (Output O) → Outcome × Option (Output O)
  checked role none = (schema_fail, none)
  checked role (some parsed) =
      if not (role.is_valid parsed)
      then (schema_fail, none)
      else if not (role.post_validate parsed)
      then (validation_fail, none)
      else (answered, some parsed)

  abbrev pub judged : Role O → Response → Attempt O
  judged role resp =
      let (outcome, output) =
        if resp.tool_calls then (schema_fail, none) else checked role (role.loads resp.content) in
      record { outcome = outcome; output = output; finish = resp.finish_reason }

  abbrev pub heard : Config → Role O → ℕ → Option Response → Engine O → Engine O × Attempt O
  heard cfg role ended_at none e = (
    record e { breaker = record_failure cfg ended_at e.breaker },
    record { outcome = timeout; output = none; finish = none },
  )
  heard cfg role ended_at (some resp) e =
      (record e { breaker = record_response cfg e.breaker }, judged role resp)

  unfoldable pub attempt : Config → Role O → Chat → ℕ → ℕ → Engine O → Engine O × Attempt O
  attempt cfg role chat seed num_predict e =
      let reply = chat seed num_predict in
      heard cfg role reply.ended_at reply.response
        (record e { requests = e.requests ++ (seed, num_predict) ∷ [] })

  -- the answer after a retry with the doubled budget
  abbrev pub rescreened : Role O → Output O → List Text → Attempt O → Output O
  rescreened role output fields retry = elim retry.output [
    | none ↦ mark_truncated output fields
    | some longer ↦
        let cut = truncated_fields role.free_text_fields longer retry.finish in
        if is_empty cut then longer else mark_truncated longer cut
  ]

  unfoldable pub resolve_truncation :
      Config → Role O → Chat → Output O → Option Text → Engine O → Engine O × Output O
  unfolding attempt
  resolve_truncation cfg role chat output finish e =
      let fields = truncated_fields role.free_text_fields output finish in
      let (e', retry) = attempt cfg role chat 7 (role.num_predict * 2) e in
      if is_empty fields then (e, output) else (e', rescreened role output fields retry)

  abbrev pub shown : Outcome → Option (Output O) → Option (Output O)
  shown answered output = output
  shown _ output = none

  unfoldable pub finish_call : Outcome → Option (Output O) → Bool → Engine O → Engine O × Event O
  finish_call outcome output cache_hit e =
      let event : Event O = record { outcome = outcome; output = output; cache_hit = cache_hit } in
      (record e { events = e.events ++ record event { output = shown outcome output } ∷ [] }, event)

  -- what is stored after the attempts, and the result
  abbrev pub store_negative : Role O → ℕ → ℕ → Outcome → Option ℕ → Engine O → Engine O
  store_negative role key now outcome none e = e
  store_negative role key now outcome (some ttl) e =
      if is_cacheable outcome
      then record e { cache = put e.cache key now (negative outcome) }
      else e

  abbrev pub conclude :
      Config → Role O → Chat → ℕ → ℕ → Attempt O → Option (Output O) → Engine O → Engine O × Event O
  conclude cfg role chat key now last none e =
      finish_call last.outcome none false
        (store_negative role key now last.outcome role.negative_ttl_days e)
  conclude cfg role chat key now last (some output) e =
      let (e', resolved) = resolve_truncation cfg role chat output last.finish e in
      finish_call answered (some resolved) false
        (record e' { cache = put e'.cache key now (answer resolved) })

  -- one attempt, and a second with another seed after a bad body
  unfoldable pub attempts : Config → Role O → Chat → Engine O → Engine O × Attempt O
  unfolding attempt
  attempts cfg role chat e =
      let (e', first) = attempt cfg role chat 7 role.num_predict e in
      let again = attempt cfg role chat 8 role.num_predict e' in
      if is_failure first.outcome then again else (e', first)

  abbrev pub generate : Config → Role O → Chat → ℕ → ℕ → Engine O → Engine O × Event O
  generate cfg role chat key now e =
      let (b, allowed) = allow now e.breaker in
      let asked = record e { breaker = b } in
      let (e', last) = attempts cfg role chat asked in
      if allowed
      then conclude cfg role chat key now last last.output e'
      else finish_call breaker_open none false asked

  abbrev pub unless_known :
      Config → Role O → Chat → ℕ → ℕ → Option Outcome → Engine O → Engine O × Event O
  unless_known cfg role chat key now none e = generate cfg role chat key now e
  unless_known cfg role chat key now (some outcome) e = finish_call outcome none true e

  abbrev pub looked_up :
      Config → Role O → Chat → ℕ → ℕ → Option (Body O) → Engine O → Engine O × Event O
  looked_up cfg role chat key now none e = generate cfg role chat key now e
  looked_up cfg role chat key now (some (answer output)) e =
      finish_call answered (some output) true e
  looked_up cfg role chat key now (some (negative o)) e =
      unless_known cfg role chat key now (fresh_negative_outcome role e.cache key now) e

  unfoldable pub run : Config → Role O → Chat → ℕ → ℕ → Engine O → Engine O × Event O
  unfolding fresh_negative_outcome put resolve_truncation finish_call attempts
  run cfg role chat key now e =
      looked_up cfg role chat key now (get_fresh e.cache key role.ttl_days now) e
