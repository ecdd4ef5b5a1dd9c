-- ===== src/Reactor.antt =====
-- svarog/include/svarog/io/detail/reactor_interface.hpp and platform_config.hpp, and the reactors of
-- io/detail: on epoll, kqueue, `poll` and completion ports.
pub mod Operations
pub mod Epoll
pub mod Base
pub mod Registering
pub mod Interests
pub mod Iocp
pub mod Kqueue
pub mod Select
pub mod Selection
pub mod Watching
pub mod Changing
pub mod Passes
pub mod Threads
pub mod Lifetimes
pub mod Winsock
