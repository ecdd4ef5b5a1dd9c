-- ===== src/Tests.antt =====
-- The theorems at concrete inputs, and tests of the definitions.
mod Queues
mod Texts
mod Threads
mod Timing
mod Sockets
mod Addresses
mod Reactors
mod Backends
mod Watches
mod Pools
mod Strands
mod Sharing
mod Programs
mod Scripts
mod Contexts
mod Crowds
mod Waits
