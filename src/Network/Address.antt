-- ===== src/Network/Address.antt =====
-- svarog/include/svarog/network/ip/address*.hpp and svarog/source/svarog/network/ip/address*.cpp.
-- A `uint8_t` and a `uint32_t` are numbers, with the bounds where a theorem needs them. A `|` of
-- fields without a common bit is a sum, and a `&` with a mask of the high bits drops the low ones.
pub mod V4
pub mod V6
pub mod Either
pub mod Bytes
pub mod Order
pub mod Text
pub mod Hash
