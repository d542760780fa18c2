-- ===== src/Reactor/Proofs.antt =====
-- What the reactor keeps, and what its reads and writes do.
pub mod Consistent
pub mod EventLoop
pub mod SendLoop
pub mod Sending
pub mod Receiving
pub mod Apart
pub mod Joining
pub mod Clients
pub mod Bursts
pub mod Stages
pub mod Turns
pub mod Rounds
pub mod Conversation
