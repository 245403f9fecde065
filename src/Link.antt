-- ===== src/Link.antt =====
-- RUDPLink (GameConn/RUDPLink.h, GameConn/RUDPLink.cpp): the reliable and unreliable channels to
-- one remote endpoint.
pub mod State
pub mod Send
pub mod Receive
pub mod Newest
pub mod Poll
pub mod Dispatch
pub mod Delivery
pub mod Acknowledge
