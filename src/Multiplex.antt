-- ===== src/Multiplex.antt =====
-- The echo servers of day_02/demo_01 that wait on many descriptors: by select, by poll and by epoll.
pub mod Echo
pub mod Slots
pub mod Held
pub mod Select
pub mod Poll
pub mod Epoll
