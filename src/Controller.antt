-- ===== src/Controller.antt =====
-- internal/controller: the reconciler of Kustomizations.
pub mod TempDirs
pub mod ConfigIndexes
pub mod Config
pub mod Status
pub mod Source
pub mod Dependencies
pub mod Access
pub mod Readiness
pub mod Garbage
pub mod Clients
pub mod Applying
pub mod Health
pub mod Building
pub mod Reconciling
pub mod Finalizing
pub mod Dispatch
pub mod Traces
pub mod Waiting
pub mod Deletion
pub mod Retracking
pub mod Settling
pub mod Encryption
pub mod Outcomes
pub mod Failures
pub mod Protection
pub mod Pausing
pub mod Triggers
pub mod Wakeups
pub mod Framing
pub mod Requeuing
pub mod Tracking
pub mod Branching
pub mod Manager
