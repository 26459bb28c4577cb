-- ===== src/IssueService.antt =====
-- The issue service (apps/issue-service-nest/src) where it meets the outside: its start, its health,
-- and its requests to the project service.
pub mod ProjectAccess
pub mod Health
pub mod Start
