-- ===== src/Lib.antt =====
-- Zerodelay, a library for reliable and unreliable messages over UDP.
--
-- The parts and their files:
--   * GameConn/RUDPLink.cpp, isSequenceNewer: Sequence. The order of 32-bit wrapping numbers.
--   * GameConn/RUDPLink.cpp, the serialize functions, and GameConn/RecvNode.h, Packet: Packet for the
--     types, Wire for the bytes, with Wire/Header and Wire/Fragments for what is read back.
--   * GameConn/RUDPLink.cpp, tryReassembleBigPacket and defragmentPacket: Reassembly, with
--     Reassembly/Search, Reassembly/Gather and Reassembly/Complete.
--   * GameConn/RUDPLink.cpp, the rest: Link. Link/State has the record of a link and of each of its
--     eight channels; Link/Send (addToSendQueue, isSequenceDelivered), Link/Receive (recvData and what
--     it calls), Link/Newest (reliable newest groups), Link/Poll (poll, areAllQueuesEmpty) and
--     Link/Dispatch (the send thread's operations) have its operations. Link/Delivery runs a channel
--     on the datagrams of a stream; Link/Acknowledge brings acknowledgements back to the sender.
--   * GameConn/Connection.cpp: Connection. What a connection asks of its link and of the
--     ConnectionNode is a list of actions.
--   * GameConn/ConnectionNode.cpp: ConnectionNode. ConnectionNode/State has the map of connections,
--     ConnectionNode/Receive the handlers of its packets, ConnectionNode/Relay what it tells the other
--     connections, ConnectionNode/Update and ConnectionNode/Connect the rest of its operations, and
--     ConnectionNode/Session the packets of a link as the game thread gives them to it.
--   * GameConn/VariableGroup.cpp, GameConn/NetVariable.cpp: VariableGroup, the variables of a group.
--   * GameConn/VariableGroupNode.cpp: VariableGroupNode. VariableGroupNode/State has the maps of
--     groups, VariableGroupNode/Ids the network ids, VariableGroupNode/Create, VariableGroupNode/Receive
--     and VariableGroupNode/Update its operations. VariableGroupNode/Network puts nodes together that
--     ask one of them for ids; VariableGroupNode/Sync follows an update from a link to a group,
--     VariableGroupNode/Destroy the end of a group.
--   * GameConn/CoreNode.cpp: CoreNode, the critical errors and the packets that no other part handles.
--   * GameConn/Zerodelay.cpp: ZNode, how a packet finds the part that handles it; ZNode/Dispatched
--     says which part that is to be.
--   * GameConn/RecvNode.cpp: RecvNode. The map of links by endpoint and the list of links;
--     RecvNode/Send sends to many links, RecvNode/Chosen says to which, RecvNode/Rounds is the send
--     thread.
--   * GameConn/BinSerializer.cpp: BinSerializer, numbers and strings in a buffer.
--   * GameConn/Util.cpp: Util, byte order and strings. GameConn/EndPoint.cpp: EndPoint.
-- Common has the shared names: Common/Word (32-bit words), Common/Memory (a receive buffer, whose
-- bytes beyond a datagram are stale), Common/OrderedMap (std::map with integer keys).
--
-- A ConnectionNode has a Connection for each endpoint; a Connection sends through the RUDPLink of
-- that endpoint, which the RecvNode keeps. The receive thread gives datagrams to recvData, the game
-- thread polls, and the send thread dispatches. The game thread offers what it polls to the
-- ConnectionNode, then to the VariableGroupNode and then to the CoreNode. The VariableGroupNode gives
-- changed variables to the reliable newest groups of the links.
--
-- How it is modelled: a method is a function from the state before to the state after. Numbers are
-- natural numbers with wrap-around written out; a byte is a number below 256. `none` stands for a
-- fault of the source (memory read or written out of bounds). What mutexes protect is one step;
-- assertions are as in a build without them, unless the comment of a definition says otherwise.
--
-- Fuel: the searches of tryReassembleBigPacket have one step more than there are fragments; the
-- serialization loop has two more than there are bytes; deserializeMap has as much as there are bytes,
-- of which each of its rounds takes at least one.
--
-- Not modelled: sockets and the operating system (GameConn/Socket.cpp, GameConn/Platform.cpp), threads
-- and their timing, logging, the master server, most of the ZNode facade, the macros that
-- generate functions for the user, the examples and the tests. The clock, the bytes of the events
-- that create groups and the functions of the user are parameters.
pub mod Common
pub mod Sequence
pub mod Packet
pub mod Wire
pub mod ZNode
pub mod Reassembly
pub mod Link
pub mod Util
pub mod EndPoint
pub mod Connection
pub mod CoreNode
pub mod BinSerializer
pub mod RecvNode
pub mod ConnectionNode
pub mod VariableGroup
pub mod VariableGroupNode
