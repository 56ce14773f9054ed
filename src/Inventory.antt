-- ===== src/Inventory.antt =====
-- internal/inventory: the set of objects that a Kustomization manages.
pub mod Packages
pub mod Operations
pub mod Merging
pub mod Parsing
pub mod Stale
pub mod Unreadable
pub mod Listing
pub mod Canonical
