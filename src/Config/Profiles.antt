-- ===== src/Config/Profiles.antt =====
-- internal/config/config.go: profiles, the selection and the deletion of a profile.
mod Selection
mod Deletion
pub use Selection.*
pub use Deletion.*
