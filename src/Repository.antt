-- ===== src/Repository.antt =====
-- The issue service's database and the statements of
-- apps/issue-service-nest/src/infrastructure/postgres-issue.repository.ts on it.
pub mod Db
pub mod Table
pub mod Recipients
pub mod Sequences
pub mod Statements
pub mod Payloads
pub mod Writes
pub mod Changes
pub mod Operations
pub mod Creation
pub mod Progress
pub mod Invariant
pub mod Reads
pub mod Listing
pub mod Outbox
pub mod Planning
pub mod Steps
pub mod Versions
