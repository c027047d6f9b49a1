-- ===== src/Evaluation.antt =====
-- internal/evaluation: the pure function from resolved inputs to requirement results, findings,
-- resolved waivers and the verdict.
pub mod Sorting
pub mod Facts
pub mod Requirement
pub mod Universe
pub mod Waivers
pub mod Input
pub mod Evaluate
