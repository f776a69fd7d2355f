-- ===== src/Engine/Run/Stored.antt =====
-- What a role call may leave in the cache.
use reportportal_analyzer_ng.Prelude.{
  Bool-cases, is_empty, ℕ, ◌*◌, ◌≡◌, refl, ◌∙◌, ◌⊎◌, inl, inr, Bool, true, false, Option, none,
  some, List,
}
use reportportal_analyzer_ng.Text.{Text}
use reportportal_analyzer_ng.Engine.Screen.{Output, truncated_fields, mark_truncated}
use reportportal_analyzer_ng.Engine.Run.{
  Outcome, answered, schema_fail, validation_fail, timeout, breaker_open, Body, answer, negative,
  Role, Chat, Engine, Attempt, get_fresh, fresh_negative_outcome, attempt, rescreened,
  resolve_truncation, finish_call, store_negative, conclude, attempts, generate, unless_known,
  looked_up, run,
}
use reportportal_analyzer_ng.Engine.Run.Outcomes.{attempts-sends}
use reportportal_analyzer_ng.Breaker.{Config, allow}

-- the outcomes that the cache does not remember
abbrev pub is_forgotten : Outcome → Bool
is_forgotten answered = false
is_forgotten validation_fail = false
is_forgotten _ = true

module _ {O : Type 0} where
  -- no field of the output looks cut, for this finish reason
  abbrev pub IsClean : Role O → Output O → Option Text → Type 0
  IsClean role output finish =
      is_empty (truncated_fields role.free_text_fields output finish) ≡ true

  mark_truncated-flag :
      (output : Output O) (fields : List Text) → (mark_truncated output fields).truncated ≡ true
  unfolding mark_truncated
  mark_truncated-flag output fields = refl

  -- flagged as truncated, or the answer of the retry, clean for the finish reason of the retry
  abbrev pub IsSettled : Role O → Attempt O → Output O → Type 0
  IsSettled role retry result =
      (result.truncated ≡ true) ⊎ ((retry.output ≡ some result) × IsClean role result retry.finish)

  rescreened-IsSettled :
      (role : Role O) (output : Output O) (fields : List Text) (finish : Option Text)
      (retry : Option (Output O)) (a : Outcome)
      → let again : Attempt O = record { outcome = a; output = retry; finish = finish } in
        IsSettled role again (rescreened role output fields again)
  rescreened-IsSettled role output fields finish none a = inl (mark_truncated-flag output fields)
  rescreened-IsSettled role output fields finish (some longer) a =
      elim (Bool-cases (is_empty (truncated_fields role.free_text_fields longer finish))) [
        | inl b ↦ rw b (inr (refl, b))
        | inr b ↦ rw b (
            inl (mark_truncated-flag longer (truncated_fields role.free_text_fields longer finish)))
      ]

  -- An answer is never cut in silence: one of which no free-text field looks cut, for its own finish
  -- reason, is returned as it is, without a further request; for any other, the result is flagged as
  -- truncated, or is the answer to the second request, with the doubled budget, and no free-text field
  -- of that looks cut for the finish reason of that request.
  pub resolve_truncation-IsClean :
      (cfg : Config) (role : Role O) (chat : Chat) (output : Output O) (finish : Option Text)
      (e : Engine O)
      → (IsClean role output finish
          → resolve_truncation cfg role chat output finish e ≡ (e, output))
        × (IsClean role output finish
            ⊎ IsSettled role
                (attempt cfg role chat 7 (role.num_predict * 2) e).1
                (resolve_truncation cfg role chat output finish e).1)
  unfolding resolve_truncation
  resolve_truncation-IsClean cfg role chat output finish e =
      let fields = truncated_fields role.free_text_fields output finish in
      let retry = (attempt cfg role chat 7 (role.num_predict * 2) e).1 in
      (
        λ h. rw h refl,
        elim (Bool-cases (is_empty fields)) [
          | inl b ↦ inl b
          | inr b ↦ inr (
              rw b
                (rescreened-IsSettled role output fields retry.finish retry.output retry.outcome))
        ],
      )

  store_negative-forgets :
      (role : Role O) (key now : ℕ) (outcome : Outcome) (ttl : Option ℕ) (e : Engine O)
      → is_forgotten outcome ≡ true
      → (store_negative role key now outcome ttl e).cache ≡ e.cache
  store_negative-forgets role key now outcome none e h = refl
  store_negative-forgets role key now answered (some t) e h = cc
  store_negative-forgets role key now schema_fail (some t) e h = refl
  store_negative-forgets role key now validation_fail (some t) e h = cc
  store_negative-forgets role key now timeout (some t) e h = refl
  store_negative-forgets role key now breaker_open (some t) e h = refl

  conclude-forgets :
      (cfg : Config) (role : Role O) (chat : Chat) (key now : ℕ) (last : Attempt O)
      (output : Option (Output O)) (e : Engine O)
      → is_forgotten (conclude cfg role chat key now last output e).1.outcome ≡ true
      → (conclude cfg role chat key now last output e).0.cache ≡ e.cache
  unfolding finish_call
  conclude-forgets cfg role chat key now last none e h =
      store_negative-forgets role key now last.outcome role.negative_ttl_days e h
  conclude-forgets cfg role chat key now last (some output) e h = cc

  generate-forgets :
      (cfg : Config) (role : Role O) (chat : Chat) (key now : ℕ) (e : Engine O)
      → is_forgotten (generate cfg role chat key now e).1.outcome ≡ true
      → (generate cfg role chat key now e).0.cache ≡ e.cache
  unfolding finish_call
  generate-forgets cfg role chat key now e h =
      let (b, allowed) = allow now e.breaker in
      let asked = record e { breaker = b } in
      let (e', last) = attempts cfg role chat asked in
      let (l, v, c) = attempts-sends cfg role chat asked in
      elim (Bool-cases allowed) [
        | inl a ↦ rw a (conclude-forgets cfg role chat key now last last.output e' (rw a at h) ∙ c)
        | inr a ↦ rw a refl
      ]

  -- A role call that ends in a timeout, an open breaker or a body that fails the schema leaves the
  -- cache as it was.
  pub run-forgets :
      (cfg : Config) (role : Role O) (chat : Chat) (key now : ℕ) (e : Engine O)
      → is_forgotten (run cfg role chat key now e).1.outcome ≡ true
      → (run cfg role chat key now e).0.cache ≡ e.cache
  unfolding run finish_call
  run-forgets cfg role chat key now e h = looked_up_lem (get_fresh e.cache key role.ttl_days now) h
    where
      known :
          (o : Option Outcome)
          → is_forgotten (unless_known cfg role chat key now o e).1.outcome ≡ true
          → (unless_known cfg role chat key now o e).0.cache ≡ e.cache
      known none h = generate-forgets cfg role chat key now e h
      known (some o) h = refl

      looked_up_lem :
          (b : Option (Body O))
          → is_forgotten (looked_up cfg role chat key now b e).1.outcome ≡ true
          → (looked_up cfg role chat key now b e).0.cache ≡ e.cache
      looked_up_lem none h = generate-forgets cfg role chat key now e h
      looked_up_lem (some (answer output)) h = refl
      looked_up_lem (some (negative o)) h = known (fresh_negative_outcome role e.cache key now) h
