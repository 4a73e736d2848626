-- ===== src/Ops.antt =====
-- containers/api/src/services/sync-operations.service.js: operations on hosts, tracked in Redis.
pub mod Data
pub mod Redis
pub mod Sessions
pub mod Execute
pub mod Counting
pub mod Results
pub mod Finished
pub mod Cancelling
pub mod CancelThenRun
pub mod Completion
pub mod Reopened
pub mod Pool
pub mod Handlers
pub mod HandlerSteps
pub mod Turns
pub mod Interleaved
pub mod Progress
pub mod Listing
pub mod Slices
pub mod Pages
