-- ===== src/Update.antt =====
-- crates/update_manager: which release is newer, which update manifest is well formed, which update
-- may be installed.
pub mod Version
pub mod Precedence
pub mod RelativePath
pub mod Manifest
pub mod Verifier
pub mod Policy
pub mod Integrity
pub mod Leads
pub mod Below
pub mod Checker
pub mod Manager
mod Tests
