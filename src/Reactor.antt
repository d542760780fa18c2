-- ===== src/Reactor.antt =====
-- The reactor of day_02/demo_01/reactor: connections, the interest list, the reads and writes of
-- IOService, the listener and the dispatch of events.
pub mod Connection
pub mod Core
pub mod Io
pub mod Dispatch
pub mod Proofs
