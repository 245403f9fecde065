-- ===== src/Link/State.antt =====
-- The state of an RUDPLink (GameConn/RUDPLink.h) and its constructor. The arrays with an entry for
-- each channel are one list of records, an entry for each channel. The mutexes guard the fields
-- of one operation each; an operation is one step of the model.
use anger.Common.{
  ℕ, Bool, true, false, List, [], Option, none, some, replicate, get_elem?, set, if◌then◌else◌, ltb,
}
use anger.Common.Word.{add32, sub32}
use anger.Common.OrderedMap.{OrderedMap}
use anger.Packet.{Packet, CriticalError}

abbrev pub max_items_per_group : ℕ
max_items_per_group = 16

abbrev pub num_channels : ℕ
num_channels = 8

-- ZERODELAY_INITALFRAGSIZE, ZERODELAY_BUFF_SIZE
abbrev pub initial_frag_size : ℕ
initial_frag_size = 1900

abbrev pub buff_size : ℕ
buff_size = 2048

-- reliableNewestItem; `buffer` is what `data` points to, `dataCapacity` bytes of it.
pub record ReliableNewestItem : Type 0 where
  pub local_revision : ℕ
  pub remote_revision : ℕ
  pub data_len : ℕ
  pub data_capacity : ℕ
  pub buffer : List ℕ

-- reliableNewestDataGroup
pub record ReliableNewestDataGroup : Type 0 where
  pub group_items : List ReliableNewestItem
  pub data_id : ℕ

-- The entries of the arrays for one channel. A packet of the retransmit queue is only its bytes.
-- The value of `recv_queue_reliable_order` is a packet and the number of its fragments.
pub record Channel : Type 0 where
  pub retransmit_queue_reliable : List (List ℕ)
  pub recv_queue_unreliable_sequenced : List Packet
  pub recv_queue_reliable_order : OrderedMap (Packet × ℕ)
  pub unreliable_fragments : OrderedMap Packet
  pub reliable_fragments : OrderedMap Packet
  pub ack_queue : List ℕ
  pub send_seq_reliable : ℕ
  pub send_seq_unreliable : ℕ
  pub recv_seq_unreliable : ℕ
  pub recv_seq_reliable : ℕ

pub record Link : Type 0 where
  pub link_id : ℕ
  pub connected : Bool
  pub block_new_sends : Bool
  pub channels : List Channel
  pub send_queue_reliable_newest : OrderedMap ReliableNewestDataGroup
  pub recv_queue_reliable_newest : List Packet
  pub recv_seq_reliable_newest : ℕ
  pub send_seq_reliable_newest : ℕ
  pub recv_seq_reliable_newest_ack : ℕ
  pub retransmit_waiting_time : ℕ
  pub packet_loss_percentage : ℕ
  pub fragment_size : ℕ
  pub pinned_count : ℕ
  pub is_pending_delete : Bool
  pub mark_delete_ts : ℕ

-- What an operation does beside changing the link: a datagram to the remote endpoint, or a
-- critical error set on the CoreNode.
pub data Effect : Type 0 where
  transmit : List ℕ → Effect
  critical : CriticalError → Effect

-- The result of an operation that may fault: read or write out of bounds, or fail to allocate.
abbrev pub Outcome : Type 0
Outcome = Option (Link × List Effect)

-- A channel of a new link. The constructor does not set `m_RecvSeq_unreliable`, which holds what
-- was in memory.
unfoldable pub new_channel : ℕ → Channel
new_channel stale_recv_seq_unreliable = record {
  retransmit_queue_reliable = [];
  recv_queue_unreliable_sequenced = [];
  recv_queue_reliable_order = [];
  unreliable_fragments = [];
  reliable_fragments = [];
  ack_queue = [];
  send_seq_reliable = 0;
  send_seq_unreliable = 0;
  recv_seq_unreliable = stale_recv_seq_unreliable;
  recv_seq_reliable = 0;
}

-- The constructor. It does not set `m_PinnedCount` either.
unfoldable pub new_link : ℕ → ℕ → ℕ → Link
unfolding new_channel
new_link link_id stale_recv_seq_unreliable stale_pinned_count = record {
  link_id = link_id;
  connected = false;
  block_new_sends = false;
  channels = replicate num_channels (new_channel stale_recv_seq_unreliable);
  send_queue_reliable_newest = [];
  recv_queue_reliable_newest = [];
  recv_seq_reliable_newest = 0;
  send_seq_reliable_newest = 0;
  recv_seq_reliable_newest_ack = 0;
  retransmit_waiting_time = 0;
  packet_loss_percentage = 0;
  fragment_size = initial_frag_size;
  pinned_count = stale_pinned_count;
  is_pending_delete = false;
  mark_delete_ts = 0;
}

-- An operation on the entries of one channel. An index out of range is a fault.
unfoldable pub on_channel : Link → ℕ → (Channel → Option Channel) → Outcome
on_channel link c f = elim (get_elem? link.channels c) [
  | none ↦ none
  | some ch ↦ elim (f ch) [
    | none ↦ none
    | some ch' ↦ some (record link { channels = set link.channels c ch' }, [])
  ]
]

unfoldable pub block_all_upcoming_sends : Link → Link
block_all_upcoming_sends link = record link { block_new_sends = true }

-- `now` is `::clock()`.
unfoldable pub mark_pending_delete : ℕ → Link → Link
mark_pending_delete now link =
    if link.is_pending_delete
    then link
    else record link { is_pending_delete = true; mark_delete_ts = now }

unfoldable pub set_connected : Bool → Link → Link
set_connected connected link = record link { connected = connected }

unfoldable pub pin : Link → Link
unfolding add32
pin link = record link { pinned_count = add32 link.pinned_count 1 }

unfoldable pub unpin : Link → Link
unfolding sub32
unpin link = record link { pinned_count = sub32 link.pinned_count 1 }

unfoldable pub is_pinned : Link → Bool
is_pinned link = ltb 0 link.pinned_count

unfoldable pub simulate_packet_loss : ℕ → Link → Link
simulate_packet_loss percentage link = record link { packet_loss_percentage = percentage }
