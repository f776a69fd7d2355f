-- ===== src/Retrain/Tests.antt =====
-- The retrainer with the library's settings.
use reportportal_analyzer_ng.Prelude.{refl, none, some, List, [], ◌∷◌}
use reportportal_analyzer_ng.Retrain.{events, nightly, route, World, Config, Call}
use reportportal_analyzer_ng.Retrain.Scheduler.{
  idle, requested, finished, run, IsOwed, request-survives,
}

abbrev settings : Config
settings = record { threshold = 100; min_interval = 3600; failed_cooldown = 300 }

abbrev busy : World
busy = record { count_events_since = λ since. 150; trained = some 400; gate = none }

abbrev calls : List Call
calls =
    record { reason = events; now = 10000; world = busy }
    ∷ record { reason = route; now = 11000; world = busy }
    ∷ record { reason = nightly; now = 14000; world = busy }
    ∷ []

request-survives_example :
    IsOwed 1 (run (requested nightly ∷ requested events ∷ finished none ∷ []) idle).pending
request-survives_example =
    request-survives nightly idle (requested events ∷ finished none ∷ []) refl
