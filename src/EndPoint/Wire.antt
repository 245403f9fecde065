-- ===== src/EndPoint/Wire.antt =====
-- EndPoint::write and EndPoint::read, and the host-order accessors (GameConn/EndPoint.cpp).
use anger.Common.{ℕ, ◌<◌, ◌≤◌, ◌≡◌, refl, some, List, length, arith, ◌++◌, ◌∷◌, [], ◌%◌, ◌/◌}
use anger.Common.Word.{u32_mod}
use anger.Common.Memory.{Memory, load, u32_of_bytes, u32_bytes}
use anger.Util.ByteOrder.{htonl-htonl, htonl_low}
use anger.EndPoint.{
  EndPoint, get_port_host_order, get_ipv4_host_order, set_ip_and_port_from_host_order, write, read,
}

pub record IsAddress (e : EndPoint) : Type 0 where
  pub host_ok : e.host < u32_mod
  pub port_ok : e.port < 65536

bytes_of : EndPoint → List ℕ
bytes_of e = u32_bytes e.host ++ (e.port % 256 ∷ e.port / 256 % 256 ∷ [])

-- An endpoint that is written to a buffer with room for it takes six bytes, and is read back from
-- them.
pub read-write :
    (e : EndPoint) (buf_size : ℕ) (stale : Memory)
    → IsAddress e
    → 6 ≤ buf_size
    → (bytes : List ℕ) × (write e buf_size ≡ some bytes)
      × (length bytes ≡ 6)
      × (read (load stale bytes) (length bytes) ≡ some e)
unfolding write read load bytes_of
read-write e buf_size stale a h =
    (bytes_of e, ground arith, refl, ground (arith, u32_of_bytes e.host a.host_ok))

-- The address survives a change to host order and back, but the port is lost: in host order it is
-- always 0.
pub host_order :
    (e : EndPoint)
    → IsAddress e
    → (get_port_host_order e ≡ 0)
      × (set_ip_and_port_from_host_order (get_ipv4_host_order e) (get_port_host_order e)
          ≡ record { host = e.host; port = 0 })
unfolding get_port_host_order get_ipv4_host_order set_ip_and_port_from_host_order
host_order e a = (
  htonl_low e.port a.port_ok,
  rw (htonl-htonl e.host a.host_ok, htonl_low e.port a.port_ok, htonl_low 0 (omega arith)) refl,
)
