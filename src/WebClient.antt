-- ===== src/WebClient.antt =====
-- The web client (apps/web-client/src): the code behind its screens.
pub mod Issues
pub mod ApiError
pub mod Session
pub mod Interceptors
pub mod Retries
pub mod Sharing
pub mod Errors
pub mod Requests
pub mod Board
pub mod Cache
pub mod Forms
pub mod Roadmap
