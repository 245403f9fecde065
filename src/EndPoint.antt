-- ===== src/EndPoint.antt =====
-- EndPoint (GameConn/EndPoint.h, GameConn/EndPoint.cpp) over an IPv4 socket: address and port are
-- kept as the socket library has them, in network order. Resolving a host name, comparing memory
-- and printing belong to the platform.
pub mod Wire
mod Tests
use anger.Common.{
  ℕ, ◌/◌, ◌%◌, ◌+◌, ◌*◌, ◌++◌, List, [], ◌∷◌, Bool, true, false, Option, none, some, leb,
  if◌then◌else◌, length, get_or,
}
use anger.Common.Memory.{Memory, u32_at, u32_bytes}
use anger.Util.{htonl}

-- The address data of the socket library.
pub record EndPoint : Type 0 where
  pub host : ℕ
  pub port : ℕ

unfoldable pub get_port_network_order : EndPoint → ℕ
get_port_network_order e = e.port

unfoldable pub get_ipv4_network_order : EndPoint → ℕ
get_ipv4_network_order e = e.host

-- The result of htonl, 32 bits, is returned as 16 bits.
unfoldable pub get_port_host_order : EndPoint → ℕ
unfolding get_port_network_order
get_port_host_order e = htonl (get_port_network_order e) % 65536

unfoldable pub get_ipv4_host_order : EndPoint → ℕ
unfolding get_ipv4_network_order
get_ipv4_host_order e = htonl (get_ipv4_network_order e)

unfoldable pub set_ip_and_port_from_network_order : ℕ → ℕ → EndPoint
set_ip_and_port_from_network_order ip port = record { host = ip; port = port }

-- The port is taken as 16 bits of a 32-bit result.
unfoldable pub set_ip_and_port_from_host_order : ℕ → ℕ → EndPoint
unfolding set_ip_and_port_from_network_order
set_ip_and_port_from_host_order ip port =
    set_ip_and_port_from_network_order (htonl ip) (htonl port % 65536)

-- write: the bytes that are put into a buffer of this size, or `none` for -1.
unfoldable pub write : EndPoint → ℕ → Option (List ℕ)
unfolding get_port_network_order get_ipv4_network_order
write e buf_size =
    if leb 6 buf_size
    then some (
        u32_bytes (get_ipv4_network_order e)
        ++ (get_port_network_order e % 256 ∷ get_port_network_order e / 256 % 256 ∷ []))
    else none

-- read: the endpoint, from a buffer of this size, or `none` for -1.
unfoldable pub read : Memory → ℕ → Option EndPoint
unfolding u32_at set_ip_and_port_from_network_order
read buff buf_size =
    if leb 6 buf_size
    then some (set_ip_and_port_from_network_order (u32_at buff 0) (buff 4 + buff 5 * 256))
    else none
