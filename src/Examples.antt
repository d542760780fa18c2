-- ===== src/Examples.antt =====
-- The theorems at concrete inputs.
mod ToyJson
mod Wire
mod Servers
mod Web
mod Loop
mod Multiplex
mod Extension
mod Pools
mod Talk
mod Threads
mod Processes
