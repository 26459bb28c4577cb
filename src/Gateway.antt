-- ===== src/Gateway.antt =====
-- apps/api-gateway-nest: the API gateway, between the web client and the services.
pub mod Errors
pub mod Client
pub mod Filter
pub mod Guard
pub mod Health
pub mod Routes
pub mod Proxy
pub mod Projects
pub mod Cookies
pub mod Sessions
pub mod RateLimit
pub mod Services
pub mod Adapters
pub mod Limits
pub mod Guesses
pub mod Registrations
pub mod Failures
