-- ===== src/Network/Socket.antt =====
-- svarog/include/svarog/network/basic_socket.hpp, with `set_non_blocking` of
-- detail/socket_types.hpp and the options of socket_base.hpp. A handle is `some` descriptor or
-- `none`, which is `invalid_socket`. `W` is the state of the operating system, `errno` included.
-- Each operation comes as the overload with `t_ec`, whose error is `none` after `t_ec.clear()`, and
-- Throwing has the other overloads.
pub mod Operations
pub mod Objects
pub mod Throwing
pub mod Ownership
pub mod Exclusive
pub mod Commands
pub mod Programs
pub mod Failures
