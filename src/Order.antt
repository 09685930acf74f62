-- ===== src/Order.antt =====
-- src/crypto_trader/order: the state machine of orders, and the manager that persists them.
pub mod StateMachine
pub mod Store
pub mod Manager
pub mod Lifecycle
pub mod Fills
