-- ===== src/Engine/Run/Outcomes.antt =====
-- What one role call records, sends and stores.
use reportportal_analyzer_ng.Prelude.{
  Bool-cases, length, is_empty, length-append, ℕ, ◌+◌, ◌*◌, ◌≤◌, ◌≡◌, refl, ap, ◌∙◌, inl, inr, Bool,
  true, false, Option, none, some, [], ◌∷◌, ◌++◌, arith,
}
use reportportal_analyzer_ng.Text.{Text}
use reportportal_analyzer_ng.Engine.Screen.{Output, truncated_fields}
use reportportal_analyzer_ng.Engine.Run.{
  Outcome, answered, breaker_open, Body, answer, negative, Role, Response, Chat, Event, Engine,
  is_failure, is_cacheable, Attempt, get_fresh, put, fresh_negative_outcome, heard, attempt,
  resolve_truncation, shown, finish_call, store_negative, conclude, attempts, generate,
  unless_known, looked_up, run,
}
use reportportal_analyzer_ng.Breaker.{Config, allow}

module _ {O : Type 0} where
  -- the requests sent, when those of `e` are taken off
  abbrev pub IsWithin : ℕ → Engine O → Engine O → Type 0
  IsWithin n e e' = length e'.requests ≤ length e.requests + n

  heard-keeps :
      (cfg : Config) (role : Role O) (t : ℕ) (o : Option Response) (e : Engine O)
      → ((heard cfg role t o e).0.requests ≡ e.requests)
        × ((heard cfg role t o e).0.events ≡ e.events)
        × ((heard cfg role t o e).0.cache ≡ e.cache)
  heard-keeps cfg role t none e = (refl, refl, refl)
  heard-keeps cfg role t (some r) e = (refl, refl, refl)

  attempt-sends :
      (cfg : Config) (role : Role O) (chat : Chat) (seed n : ℕ) (e : Engine O)
      → (length (attempt cfg role chat seed n e).0.requests ≡ length e.requests + 1)
        × ((attempt cfg role chat seed n e).0.events ≡ e.events)
        × ((attempt cfg role chat seed n e).0.cache ≡ e.cache)
  unfolding attempt
  attempt-sends cfg role chat seed n e =
      let sent = record e { requests = e.requests ++ (seed, n) ∷ [] } in
      let (r, v, c) = heard-keeps cfg role (chat seed n).ended_at (chat seed n).response sent in
      (ap length r ∙ length-append e.requests ((seed, n) ∷ []), v, c)

  pub attempts-sends :
      (cfg : Config) (role : Role O) (chat : Chat) (e : Engine O)
      → IsWithin 2 e (attempts cfg role chat e).0
        × ((attempts cfg role chat e).0.events ≡ e.events)
        × ((attempts cfg role chat e).0.cache ≡ e.cache)
  unfolding attempts
  attempts-sends cfg role chat e =
      let (e', first) = attempt cfg role chat 7 role.num_predict e in
      let (l, v, c) = attempt-sends cfg role chat 7 role.num_predict e in
      let (l', v', c') = attempt-sends cfg role chat 8 role.num_predict e' in
      elim (Bool-cases (is_failure first.outcome)) [
        | inl b ↦ rw b (omega (arith, l, l'), v' ∙ v, c' ∙ c)
        | inr b ↦ rw b (omega (arith, l), v, c)
      ]

  resolve_truncation-sends :
      (cfg : Config) (role : Role O) (chat : Chat) (output : Output O) (finish : Option Text)
      (e : Engine O)
      → IsWithin 1 e (resolve_truncation cfg role chat output finish e).0
        × ((resolve_truncation cfg role chat output finish e).0.events ≡ e.events)
        × ((resolve_truncation cfg role chat output finish e).0.cache ≡ e.cache)
  unfolding resolve_truncation
  resolve_truncation-sends cfg role chat output finish e =
      let (l, v, c) = attempt-sends cfg role chat 7 (role.num_predict * 2) e in
      elim (Bool-cases (is_empty (truncated_fields role.free_text_fields output finish))) [
        | inl b ↦ rw b (omega arith, refl, refl)
        | inr b ↦ rw b (omega (arith, l), v, c)
      ]

  -- one event is added, of the result; the requests grow by at most three
  pub record IsRecorded (e : Engine O) (result : Engine O × Event O) : Type 0 where
    pub few : IsWithin 3 e result.0
    pub one_event :
        result.0.events
        ≡ e.events ++ record result.1 { output = shown result.1.outcome result.1.output } ∷ []
    pub unsent_on_hit : result.1.cache_hit ≡ true → result.0.requests ≡ e.requests

  finish_call-IsRecorded :
      (outcome : Outcome) (output : Option (Output O)) (hit : Bool) (e e' : Engine O)
      → IsWithin 3 e e'
      → e'.events ≡ e.events
      → (hit ≡ true → e'.requests ≡ e.requests)
      → IsRecorded e (finish_call outcome output hit e')
  unfolding finish_call
  finish_call-IsRecorded outcome output hit e e' l v h = record {
    few = l;
    one_event =
        ap
          (λ z.
            z ++ record { outcome = outcome; output = shown outcome output; cache_hit = hit } ∷ [])
          v;
    unsent_on_hit = h;
  }

  store_negative-keeps :
      (role : Role O) (key now : ℕ) (outcome : Outcome) (ttl : Option ℕ) (e : Engine O)
      → ((store_negative role key now outcome ttl e).requests ≡ e.requests)
        × ((store_negative role key now outcome ttl e).events ≡ e.events)
  store_negative-keeps role key now outcome none e = (refl, refl)
  store_negative-keeps role key now outcome (some t) e = elim (Bool-cases (is_cacheable outcome)) [
    | inl b ↦ rw b (refl, refl)
    | inr b ↦ rw b (refl, refl)
  ]

  conclude-IsRecorded :
      (cfg : Config) (role : Role O) (chat : Chat) (key now : ℕ) (last : Attempt O)
      (output : Option (Output O)) (e e' : Engine O)
      → IsWithin 2 e e'
      → e'.events ≡ e.events
      → IsRecorded e (conclude cfg role chat key now last output e')
  conclude-IsRecorded cfg role chat key now last none e e' l v =
      let (r, w) = store_negative-keeps role key now last.outcome role.negative_ttl_days e' in
      finish_call-IsRecorded last.outcome none false e
        (store_negative role key now last.outcome role.negative_ttl_days e')
        (rw r (omega (arith, l))) (w ∙ v) (λ h. cc)
  conclude-IsRecorded cfg role chat key now last (some output) e e' l v =
      let (e'', resolved) = resolve_truncation cfg role chat output last.finish e' in
      let (m, w, c) = resolve_truncation-sends cfg role chat output last.finish e' in
      finish_call-IsRecorded answered (some resolved) false e
        (record e'' { cache = put e''.cache key now (answer resolved) }) (omega (arith, l, m))
        (w ∙ v) (λ h. cc)

  generate-IsRecorded :
      (cfg : Config) (role : Role O) (chat : Chat) (key now : ℕ) (e : Engine O)
      → IsRecorded e (generate cfg role chat key now e)
  generate-IsRecorded cfg role chat key now e =
      let (b, allowed) = allow now e.breaker in
      let asked = record e { breaker = b } in
      let (e', last) = attempts cfg role chat asked in
      let (l, v, c) = attempts-sends cfg role chat asked in
      elim (Bool-cases allowed) [
        | inl a ↦ rw a (conclude-IsRecorded cfg role chat key now last last.output e e' l v)
        | inr a ↦
            rw a (
              finish_call-IsRecorded breaker_open none false e asked (omega arith) refl (λ h. refl))
      ]

  -- Every role call records one audit event, of its result, with an output only if the outcome is an
  -- answer; it sends at most three requests, and none where the cache answers.
  pub run-IsRecorded :
      (cfg : Config) (role : Role O) (chat : Chat) (key now : ℕ) (e : Engine O)
      → IsRecorded e (run cfg role chat key now e)
  unfolding run
  run-IsRecorded cfg role chat key now e = looked_up_lem (get_fresh e.cache key role.ttl_days now)
    where
      known : (o : Option Outcome) → IsRecorded e (unless_known cfg role chat key now o e)
      known none = generate-IsRecorded cfg role chat key now e
      known (some o) = finish_call-IsRecorded o none true e e (omega arith) refl (λ h. refl)

      looked_up_lem : (b : Option (Body O)) → IsRecorded e (looked_up cfg role chat key now b e)
      looked_up_lem none = generate-IsRecorded cfg role chat key now e
      looked_up_lem (some (answer output)) =
          finish_call-IsRecorded answered (some output) true e e (omega arith) refl (λ h. refl)
      looked_up_lem (some (negative o)) = known (fresh_negative_outcome role e.cache key now)
