-- ===== src/Samples.antt =====
-- Concrete packages, a platform and objects, on which the theorems and the definitions are run.
pub mod Packages
pub mod Files
pub mod Keys
pub mod Conditions
pub mod Objects
pub mod Platforms
pub mod Queues
pub mod Seals
