-- ===== src/Link/Newest.antt =====
-- Reliable newest data: RUDPLink::addReliableNewest, receiveReliableNewest and
-- receiveAckRelNewest (GameConn/RUDPLink.cpp).
use anger.Common.{
  ℕ, zero, suc, ◌%◌, Bool, true, false, not, List, [], ◌∷◌, ◌++◌, map, none, some, if◌then◌else◌,
  ltb, ◌==◌, length, drop, set, replicate,
}
use anger.Common.Word.{add32}
use anger.Common.Memory.{Memory, u32_at}
use anger.Common.OrderedMap.{OrderedMap, find, insert}
use anger.Packet.{reliable_newest, serialization_error}
use anger.Sequence.{is_sequence_newer}
use anger.Wire.{
  create_normal_packet, hdr_relnew_size, off_relnew_seq, off_relnew_num, hdr_ack_relnew_size,
}
use anger.Link.State.{
  Link, Effect, critical, Outcome, ReliableNewestItem, ReliableNewestDataGroup, max_items_per_group,
}

-- A `u16_t` takes the low 16 bits.
abbrev pub u16 : ℕ → ℕ
u16 n = n % 65536

-- A new group: all items at the current revision, the one given holds the data.
unfoldable pub new_group : ℕ → List ℕ → ℕ → ℕ → ReliableNewestDataGroup
new_group id bytes group_bit revision = record {
  group_items = set (replicate max_items_per_group unused) group_bit item;
  data_id = id;
}
  where
    unused : ReliableNewestItem
    unused = record {
      local_revision = revision;
      remote_revision = revision;
      data_len = 0;
      data_capacity = 0;
      buffer = [];
    }

    item : ReliableNewestItem
    item = record {
      local_revision = revision;
      remote_revision = revision;
      data_len = u16 (length bytes);
      data_capacity = u16 (length bytes);
      buffer = bytes;
    }

-- An item takes new data; its buffer is kept if it is large enough.
unfoldable pub renew_item : List ℕ → ℕ → ReliableNewestItem → ReliableNewestItem
renew_item bytes revision item =
    if ltb item.data_capacity (length bytes)
    then record item {
      local_revision = revision;
      data_len = u16 (length bytes);
      data_capacity = u16 (length bytes);
      buffer = bytes;
    }
    else record item {
      local_revision = revision;
      data_len = u16 (length bytes);
      buffer = bytes ++ drop (length bytes) item.buffer;
    }

-- The item at an index is renewed.
unfoldable pub renew_at : List ℕ → ℕ → ℕ → List ReliableNewestItem → List ReliableNewestItem
unfolding renew_item
renew_at bytes revision i [] = []
renew_at bytes revision zero (item ∷ items) = renew_item bytes revision item ∷ items
renew_at bytes revision (suc i) (item ∷ items) = item ∷ renew_at bytes revision i items

-- The value of an entry that is there is changed in place.
unfoldable pub replace_value {ℓ} : {V : Type ℓ} → ℕ → V → OrderedMap V → OrderedMap V
replace_value k v [] = []
replace_value k v ((j, w) ∷ m) = if k == j then (j, v) ∷ m else (j, w) ∷ replace_value k v m

-- addReliableNewest; `group_bit` is not negative here, a negative one is refused like a large one.
unfoldable pub add_reliable_newest : ℕ → List ℕ → ℕ → ℕ → Link → Link × List Effect
unfolding find insert new_group renew_at replace_value
add_reliable_newest id bytes group_id group_bit link =
    if link.block_new_sends
    then (link, [])
    else if not (ltb group_bit max_items_per_group)
    then (link, critical serialization_error ∷ [])
    else elim (find group_id link.send_queue_reliable_newest) [
      | none ↦ (
        record link {
          send_queue_reliable_newest =
              insert group_id (new_group id bytes group_bit link.send_seq_reliable_newest)
                link.send_queue_reliable_newest;
        },
        [],
      )
      | some group ↦ (
        record link {
          send_queue_reliable_newest =
              replace_value group_id
                (record group {
                  group_items =
                      renew_at bytes link.send_seq_reliable_newest group_bit group.group_items;
                })
                link.send_queue_reliable_newest;
        },
        [],
      )
    ]

-- receiveReliableNewest
unfoldable pub receive_reliable_newest : ℕ → Memory → ℕ → Link → Outcome
unfolding u32_at is_sequence_newer add32 create_normal_packet
receive_reliable_newest link_id buff raw_size link =
    let seq = u32_at buff off_relnew_seq in
    if ltb raw_size hdr_relnew_size
    then some (link, [])
    else if not (is_sequence_newer seq link.recv_seq_reliable_newest)
    then some (link, [])
    else elim (create_normal_packet buff off_relnew_num raw_size link_id 0 false reliable_newest) [
      | none ↦ none
      | some pack ↦ some (
        record link {
          recv_seq_reliable_newest = add32 seq 1;
          recv_queue_reliable_newest = link.recv_queue_reliable_newest ++ (pack ∷ []);
        },
        [],
      )
    ]

-- An item with the revision that was acknowledged.
abbrev pub acked_item : ℕ → ReliableNewestItem → ReliableNewestItem
acked_item ack_seq item = record item { remote_revision = ack_seq }

-- The loop that decides `removeGroup`, over items whose remote revision is set.
unfoldable pub can_remove : List ReliableNewestItem → Bool
unfolding is_sequence_newer
can_remove [] = true
can_remove (item ∷ items) =
    if is_sequence_newer item.remote_revision item.local_revision then false else can_remove items

-- The loop over the groups.
unfoldable pub ack_groups :
    ℕ → OrderedMap ReliableNewestDataGroup → OrderedMap ReliableNewestDataGroup
unfolding can_remove
ack_groups ack_seq [] = []
ack_groups ack_seq ((k, group) ∷ m) =
    let items = map (acked_item ack_seq) group.group_items in
    if can_remove items
    then ack_groups ack_seq m
    else (k, record group { group_items = items }) ∷ ack_groups ack_seq m

-- receiveAckRelNewest. The sequence number is read from the start of the packet.
unfoldable pub receive_ack_rel_newest : Memory → ℕ → Link → Outcome
unfolding u32_at is_sequence_newer add32 ack_groups
receive_ack_rel_newest buff raw_size link =
    let ack_seq = u32_at buff 0 in
    if ltb raw_size hdr_ack_relnew_size
    then some (link, [])
    else if not (is_sequence_newer ack_seq link.recv_seq_reliable_newest_ack)
    then some (link, [])
    else some (
      record link {
        recv_seq_reliable_newest_ack = add32 ack_seq 1;
        send_queue_reliable_newest = ack_groups ack_seq link.send_queue_reliable_newest;
      },
      [],
    )
