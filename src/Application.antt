-- ===== src/Application.antt =====
-- The use cases of the issue service (apps/issue-service-nest/src/application).
pub mod Access
pub mod Input
pub mod Plans
pub mod Handlers
pub mod Planning
pub mod Visibility
pub mod Privacy
pub mod ListQuery
pub mod Listing
pub mod Concurrency
