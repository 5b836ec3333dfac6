-- ===== src/Callability.antt =====
-- core/callability: the state of a callable task, and the handles of its executions.
pub mod TaskMachine
pub mod Execution
pub mod Registry
