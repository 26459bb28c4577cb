-- ===== src/Domain.antt =====
-- The domain of the issue service: errors, validation, issues and their workflow, epics and sprints.
pub mod Errors
pub mod Values
pub mod Issue
pub mod Planning
