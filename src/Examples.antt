-- ===== src/Examples.antt =====
-- The theorems at concrete values, and runs of the definitions.
mod Walks
mod Secrets
mod Resources
mod Data
mod Reconciler
mod Objects
mod Wakeups
mod Endings
mod Runs
mod Commands
