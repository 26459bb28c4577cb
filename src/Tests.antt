-- ===== src/Tests.antt =====
-- Runs of the code at concrete inputs.
pub mod Data
pub mod Running
pub mod Domain
pub mod Repository
pub mod Planning
pub mod Outbox
pub mod Reading
pub mod Listing
pub mod Application
pub mod Paging
pub mod Paths
pub mod Gateway
pub mod Signing
pub mod Client
pub mod Board
pub mod Service
pub mod Forms
