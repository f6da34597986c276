-- ===== src/Api.antt =====
-- internal/api/api.go: the profiles and the configuration behind the dashboard's requests.
pub mod Build
pub mod Upsert
pub mod Complete
pub mod Stored
pub mod Server
pub mod Handlers
pub mod Coherence
pub mod Notify
pub mod Events
pub mod Current
pub mod Logs
pub mod Probes
pub mod LogFiles
mod Examples
mod LogExamples
mod ProbeExamples
mod EventExamples
