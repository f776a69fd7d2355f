-- ===== src/Decision.antt =====
-- src/analyzer_ng/core/decision.py: from the evidence for one failed item to a defect label, a
-- confidence and a policy action. `Types` holds the data, `Inherit` Stage A (inheriting the label of
-- an exact error hash), `Kb` Stage B (known failure modes), `Gbm` the banded model prediction,
-- `Decide` the assembly; the other children prove.
pub mod Types
pub mod Similarity
pub mod Inherit
pub mod Kb
pub mod Gbm
pub mod Decide
pub mod Probability
mod Tests
