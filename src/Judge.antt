-- ===== src/Judge.antt =====
-- internal/judge/judge.go: the judge engine. `Metrics` reads what a run measured, `Ready` waits for
-- the engine under test, and `Engine` is a run from its submission to its result.
pub mod Metrics
pub mod Ready
pub mod Engine
