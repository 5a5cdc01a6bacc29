-- ===== src/Api.antt =====
-- src/api: the middlewares, the schemas of request bodies and the handlers.
pub mod Middlewares
pub mod Schemas
pub mod Handlers
