-- ===== src/Protocol.antt =====
-- Protocol.hpp of the calculator server and of the reactor: frames, requests and responses.
pub mod Frame
pub mod Messages
pub mod Json
pub mod Factory
