-- ===== src/Analysis.antt =====
-- src/analyzer_ng/core/analysis.py: the read path. `Evidence` gathers the evidence for one item in the
-- scope of the analyzer mode (src/analyzer_ng/core/scope.py) and decides it; `Launch` fans decisions
-- out to a launch's groups; `Early` is the pass over single items; `Suggest` renders a reply. What the
-- stores answer is an argument, and what is written to them is a list of effects.
pub mod Evidence
pub mod Effects
pub mod Launch
pub mod Early
pub mod Suggest
mod Tests
