-- ===== src/Platform.antt =====
-- What the controller calls and this repository does not contain: the Kubernetes API server, the
-- operating system, and the packages of fluxcd/pkg, cli-utils, kustomize and apimachinery.
pub mod Values
pub mod Conditions
pub mod Services
