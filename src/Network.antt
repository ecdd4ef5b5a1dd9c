-- ===== src/Network.antt =====
-- svarog/include/svarog/network and svarog/source/svarog/network: protocols, addresses, endpoints
-- and sockets.
pub mod Protocol
pub mod Address
pub mod Endpoint
pub mod Socket
