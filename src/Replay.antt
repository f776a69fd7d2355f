-- ===== src/Replay.antt =====
-- The replay gate of a retrained model: src/analyzer_ng/ml/eval.py selects and splits the events and
-- reports on a slice of them (`Events`, `Report`), src/analyzer_ng/ml/gate.py judges (`Gate`). The
-- model's prediction and the calibrator's are LightGBM's and a fitted table's, and are parameters.
pub mod Events
pub mod Report
pub mod Gate
mod Tests
