-- ===== src/Engine/Tests.antt =====
-- A sidecar that answers with a cut text, and one that does not answer.
use reportportal_analyzer_ng.Prelude.{◌*◌, ◌≡◌, refl, ◌⊎◌, true, false, none, some, [], ◌∷◌, ◌++◌}
use reportportal_analyzer_ng.Text.{Text, codes}
use reportportal_analyzer_ng.Engine.Screen.{
  Output, truncation_marker, truncated_fields, mark_truncated,
}
use reportportal_analyzer_ng.Engine.Run.{Role, Chat, Engine, attempt, resolve_truncation, run}
use reportportal_analyzer_ng.Engine.Run.Outcomes.{IsRecorded, run-IsRecorded}
use reportportal_analyzer_ng.Engine.Run.Stored.{
  IsClean, IsSettled, resolve_truncation-IsClean, run-forgets,
}
use reportportal_analyzer_ng.Breaker.{closed, Config, allow}

abbrev cfg : Config
cfg = record { fail_threshold = 3; base_cooldown_s = 60; max_cooldown_s = 900 }

abbrev engine : Engine (Unit {0})
engine = record {
  breaker = record {
    state = closed;
    consecutive_failures = 0;
    cooldown = 60;
    opened_at = 0;
    changes = [];
  };
  cache = [];
  events = [];
  requests = [];
}

abbrev output_of : Text → Output (Unit {0})
output_of content = record {
  texts = (codes "reason", content) ∷ [];
  truncated = false;
  others = tt;
}

abbrev role : Role (Unit {0})
role = record {
  ttl_days = 30;
  negative_ttl_days = some 1;
  num_predict = 200;
  free_text_fields = codes "reason" ∷ [];
  loads = λ content. some (output_of content);
  is_valid = λ output. true;
  post_validate = λ output. true;
}

abbrev terse : Chat
terse seed budget = record {
  ended_at = 20;
  response = some (record {
    tool_calls = false;
    content = codes "the exception is a";
    finish_reason = some (codes "length");
  });
}

abbrev silent : Chat
silent seed budget = record { ended_at = 20; response = none }

cut_is_marked :
    (run cfg role terse 1 10 engine).1.output
    ≡ some
        (record (output_of (codes "the exception is a" ++ truncation_marker)) { truncated = true })
unfolding run attempt allow truncated_fields mark_truncated
cut_is_marked = refl

run-IsRecorded_example : IsRecorded engine (run cfg role terse 1 10 engine)
run-IsRecorded_example = run-IsRecorded cfg role terse 1 10 engine

resolve_truncation-IsClean_example :
    (IsClean role (output_of (codes "it is a")) none
      → resolve_truncation cfg role terse (output_of (codes "it is a")) none engine
        ≡ (engine, output_of (codes "it is a")))
    × (IsClean role (output_of (codes "it is a")) none
        ⊎ IsSettled role
            (attempt cfg role terse 7 (role.num_predict * 2) engine).1
            (resolve_truncation cfg role terse (output_of (codes "it is a")) none engine).1)
resolve_truncation-IsClean_example =
    resolve_truncation-IsClean cfg role terse (output_of (codes "it is a")) none engine

run-forgets_example : (run cfg role silent 1 10 engine).0.cache ≡ []
unfolding run attempt allow
run-forgets_example = run-forgets cfg role silent 1 10 engine refl
