-- ===== src/Http.antt =====
-- internal/http: the HTTP interface of the service.
pub mod Messages
pub mod Server
