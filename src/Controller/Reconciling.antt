-- ===== src/Controller/Reconciling.antt =====
-- `reconcile` of internal/controller/kustomization_controller.go, in the stages of its comments.
pub mod Steps
pub mod Stages
