-- ===== src/PlainHttp.antt =====
-- The web server of day_01/demo_02/http, which came before the one with sessions: its requests, its
-- service, and how the server with sessions extends it.
pub mod Request
pub mod Service
pub mod Forget
pub mod Extension
