-- ===== src/Network/Protocol.antt =====
-- svarog/include/svarog/network/ip/tcp.hpp and udp.hpp. The constants of the platform are tags; a
-- family that is neither `AF_INET` nor `AF_INET6` keeps its number.
use svarog_io.Common.{ℕ}

pub data Family : Type 0 where
  inet : Family
  inet6 : Family
  other : ℕ → Family

pub data SocketType : Type 0 where
  stream : SocketType
  dgram : SocketType

pub data IpProtocol : Type 0 where
  ipproto_tcp : IpProtocol
  ipproto_udp : IpProtocol

-- What `socket` is called with: `family()`, `type()` and `protocol()`.
pub record Protocol : Type 0 where
  pub family : Family
  pub kind : SocketType
  pub protocol : IpProtocol

-- `tcp{family}` and `udp{family}`: only the family is stored.
abbrev pub tcp : Family → Protocol
tcp family = record { family = family; kind = stream; protocol = ipproto_tcp }

abbrev pub udp : Family → Protocol
udp family = record { family = family; kind = dgram; protocol = ipproto_udp }

abbrev pub tcp_v4 : Protocol
tcp_v4 = tcp inet

abbrev pub tcp_v6 : Protocol
tcp_v6 = tcp inet6

abbrev pub udp_v4 : Protocol
udp_v4 = udp inet

abbrev pub udp_v6 : Protocol
udp_v6 = udp inet6
