-- ===== src/EndPoint/Tests.antt =====
-- The endpoint 127.0.0.1:80 as the socket library keeps it (GameConn/EndPoint.cpp).
use anger.Common.{ℕ, ◌≡◌, some, List, length, arith}
use anger.Common.Memory.{Memory, load}
use anger.EndPoint.{
  EndPoint, write, read, get_port_host_order, get_ipv4_host_order, set_ip_and_port_from_host_order,
}
use anger.EndPoint.Wire.{IsAddress, read-write, host_order}

abbrev local : EndPoint
local = record { host = 16777343; port = 20480 }

local-IsAddress : IsAddress local
local-IsAddress = record { host_ok = omega arith; port_ok = omega arith }

abbrev noise : Memory
noise = λ i. 9

read-write_example :
    (bytes : List ℕ) × (write local 8 ≡ some bytes)
    × (length bytes ≡ 6)
    × (read (load noise bytes) (length bytes) ≡ some local)
read-write_example = read-write local 8 noise local-IsAddress (omega arith)

host_order_example :
    (get_port_host_order local ≡ 0)
    × (set_ip_and_port_from_host_order (get_ipv4_host_order local) (get_port_host_order local)
        ≡ record { host = 16777343; port = 0 })
host_order_example = host_order local local-IsAddress
