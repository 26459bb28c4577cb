-- ===== src/Gateway/Adapters.antt =====
-- apps/api-gateway-nest/src/infrastructure/http-clients: the adapters of the services, which turn a
-- call into a request with a method, a path and a body.
pub mod Issues
pub mod Projects
