-- ===== src/Scheduler.antt =====
-- The scheduler, packages/index-node/internal/scheduler/scheduler.go: path scopes and their
-- conflicts, the retry budget, the order of a claimed batch, and claiming and dispatching.
pub mod Scope
pub mod Budget
pub mod Order
pub mod Store
pub mod Claim
pub mod Dispatch
pub mod Run
pub mod Exclusion
pub mod Turns
pub mod Accounting
pub mod Queue
mod Tests
