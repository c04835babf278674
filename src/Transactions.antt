-- ===== src/Transactions.antt =====
-- internal/handler/transaction.go, pipeline_transaction.go and the queueing of
-- pipeline_executor.go: MULTI, EXEC, DISCARD, WATCH and UNWATCH.
pub mod Manager
pub mod WriteKeys
pub mod Index
pub mod Sessions
pub mod Views
pub mod Handlers
pub mod Exec
pub mod Executor
pub mod Queueing
pub mod Watchers
pub mod Modes
mod Tests
