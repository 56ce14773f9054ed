-- ===== src/Api.antt =====
-- api/v1: the Kustomization resource, its spec, its status and the defaults of its fields.
pub mod References
pub mod Inventory
pub mod Spec
pub mod Object
pub mod Defaults
pub mod Durations
pub mod Actions
pub mod V1beta2
pub mod V1beta1
pub mod Versions
