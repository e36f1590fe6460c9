-- ===== src/Publisher.antt =====
-- src/publisher.rs: projection assembly, candidate lifecycle and publication.
pub mod State
pub mod Candidates
pub mod Retirement
pub mod Finality
pub mod Insertion
pub mod Messages
pub mod Validate
pub mod Exec
pub mod Lifecycle
pub mod Project
pub mod Canonical
pub mod Recovery
pub mod Handle
pub mod Stream
pub mod Serve
pub mod Reload
