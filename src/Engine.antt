-- ===== src/Engine.antt =====
-- src/analyzer_ng/llm/engine.py: one role call, with its cache, its breaker and its audit events.
-- `Screen` is the screen for masked truncation, `Run` the call itself.
pub mod Screen
pub mod Run
mod Tests
