-- ===== src/ConnectionNode.antt =====
-- ConnectionNode (GameConn/ConnectionNode.h, GameConn/ConnectionNode.cpp): the connections to all
-- endpoints, what is received on their links, and their updates.
pub mod State
pub mod Relay
pub mod Receive
pub mod Update
pub mod Connect
pub mod Table
pub mod Invariant
pub mod Session
pub mod Survivors
pub mod Handshake
pub mod Connecting
mod Tests
