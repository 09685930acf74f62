-- ===== src/Runtime.antt =====
-- The runtime: the single-writer lease, the submission of an order, the events that come back from the
-- exchange, the recovery of open orders, the start, stop and loops of the engine, and the states of the
-- process.
pub mod Lease
pub mod Recovery
pub mod Submission
pub mod Events
pub mod ExecutionSymbols
pub mod PerpetualRoute
pub mod Signal
pub mod Tick
pub mod Engine
pub mod Loops
pub mod Supervisor
pub mod StateMachine
