-- ===== src/Http.antt =====
-- internal/transport/http: the handlers, the middleware and the server, and api/gen/server.gen.go in
-- front of them.
pub mod Api
pub mod Errors
pub mod Mapper
pub mod Handlers
pub mod Middleware
pub mod Server
pub mod Responses
pub mod Wire
