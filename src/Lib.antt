-- ===== src/Lib.antt =====
-- A model of the analyzer's decision core and read path, of its LLM pipeline, of its message worker,
-- of its migrations and of its model replacement, with proofs of what they promise.
--
-- The parts and how they interact. The consumer hands each message to a worker, which adapts it,
-- calls a handler and publishes the reply (`Dispatcher`: src/analyzer_ng/amqp/dispatcher.py). For an
-- analysis the handler groups the failed items of a launch (`Grouping`:
-- src/analyzer_ng/core/grouping.py), gathers the evidence that the analyzer mode admits (`Scope`:
-- src/analyzer_ng/core/scope.py) and fans decisions out, or renders suggestions (`Analysis`:
-- src/analyzer_ng/core/analysis.py); a decision itself is made in `Decision`
-- (src/analyzer_ng/core/decision.py, with the similarities and discriminant columns of
-- src/analyzer_ng/core/features.py). Doubtful items become jobs of the LLM queue (`LlmQueue`:
-- src/analyzer_ng/llm/queue.py), whose worker makes role calls (`Engine`:
-- src/analyzer_ng/llm/engine.py) on excerpts of logs (`Excerpt`: src/analyzer_ng/llm/excerpt.py),
-- checks the answers (`Schema`: src/analyzer_ng/llm/schema.py) and stands behind a circuit breaker
-- (`Breaker`: src/analyzer_ng/llm/breaker.py). Corrections become events, on which a model is
-- retrained (`Retrain`: src/analyzer_ng/ml/retrain.py) and replayed against the active one before
-- it ships (`Replay`: src/analyzer_ng/ml/eval.py and src/analyzer_ng/ml/gate.py). Before any of
-- this, a starting container brings the database schema up to date (`Migrate`:
-- src/analyzer_ng/db/migrate.py).
--
-- Each module keeps the names of the functions that it models: `Decision.Decide.decide` is `decide`,
-- `Breaker.allow` is `CircuitBreaker.allow`, `LlmQueue.enqueue` is `LlmQueue.enqueue`,
-- `Engine.Run.run` is `LlmEngine.run`, `Dispatcher.process_bound` is `WorkerPool._process_bound`,
-- `Replay.Gate.passes_gate` and `run_gate` are the functions of that name, `ship_gate` is the closure
-- of `make_ship_gate`, and `Retrain.maybe_retrain` is `Retrainer.maybe_retrain`.
-- `Analysis.Launch.analyze_launch` is `AnalysisEngine._analyze_launch`,
-- `Analysis.Early.analyze_item_early` and `Analysis.Suggest.Render.render_suggestions` are the
-- methods of that name, and `Migrate.Run.apply_migrations` is `apply_migrations`. What the analysis
-- writes is a list of effects in the order of the writes. An object's state is a record that
-- operations take and return; what a lock guards is one step, and threads are the interleavings of
-- steps. Clock readings are arguments. A raised exception is a value.
--
-- Numbers. Floats are the interface `Floats`, an ordered type with operations of which only the order
-- is known; its instance of ten-thousandths serves the tests. Strings are lists of code points
-- (`Text`). Times are natural numbers of microseconds or seconds, as each module says.
--
-- Loops and fuel. Every loop is structural recursion but two. The retry loop of the worker has fuel
-- for one attempt more than the allowed retries, of which each turn uses one; the loop that shrinks
-- an excerpt has one more turn than its windows have lines, and each turn takes a line away. The fuel
-- of `decimal` is one more than the number, which has no more digits than that.
--
-- Not modelled: SQL, HTTP, AMQP connections, LightGBM, scikit-learn and pydantic, of which the
-- answers are parameters; log lines; the feature columns that the decision does not read back; the
-- table that binds routing keys to handlers; preprocessing, clustering, search and the inspector; the
-- payloads of jobs, the text of `modelInfo`, `ledger_gaps`, which only feeds a log line, and how long
-- a migration took.
--
-- What the proofs assume of the database: while a run holds the migration lock, the commands around
-- the migrations write no row of the ledger, an insert adds its row, and a failed transaction changes
-- none (`Migrate.Run.Laws`); and that the statements of the files leave the ledger alone. While a run
-- waits for the lock, another may change the ledger.
pub mod Prelude
pub mod Floats
pub mod Text
pub mod Scope
pub mod Grouping
pub mod Decision
pub mod Analysis
pub mod Migrate
pub mod Excerpt
pub mod Schema
pub mod Breaker
pub mod LlmQueue
pub mod Engine
pub mod Dispatcher
pub mod Replay
pub mod Retrain
