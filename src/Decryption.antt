-- ===== src/Decryption.antt =====
-- internal/decryptor: the decryption of files, resources and values for a Kustomization.
pub mod Secrets
pub mod Formats
pub mod Files
pub mod Redaction
pub mod Tree
pub mod Sops
pub mod Resources
pub mod Vault
pub mod Credentials
pub mod Importing
pub mod Authentication
pub mod Walking
pub mod Sources
