-- ===== src/VariableGroupNode.antt =====
-- VariableGroupNode (GameConn/VariableGroupNode.h, GameConn/VariableGroupNode.cpp): the groups of
-- variables of a node, of its own and of other endpoints, and the network ids.
pub mod State
pub mod Ids
pub mod Create
pub mod Receive
pub mod Update
pub mod Network
pub mod Kept
pub mod Destroy
pub mod Sync
mod Tests
