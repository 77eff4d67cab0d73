-- ===== src/Runtime.antt =====
-- pebs/runtime/executor.py, on the state of Engine/Dispatch: Runtime/Records has what is recorded of a
-- node, Runtime/Executor the nodes and the plan.
pub mod Records
pub mod Executor
