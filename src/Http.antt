-- ===== src/Http.antt =====
-- The HTTP server of day_01/demo_02/cookie_session: requests, responses, sessions and the service.
pub mod Request
pub mod Response
pub mod Session
pub mod Service
pub mod Login
pub mod Server
pub mod Cookies
pub mod Proofs
