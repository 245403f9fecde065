-- ===== src/VariableGroupNode/Tests.antt =====
-- Runs of VariableGroupNode and its network, and the theorems at concrete inputs.
use anger.Common.Word.{add32}
use anger.Common.OrderedMap.{find}
use anger.Common.{
  ◌&&◌, replicate, ℕ, ◌≡◌, ◌≤◌, refl, true, false, List, [], ◌∷◌, ◌++◌, map, none, some, arith,
  if◌then◌else◌, ◌==◌,
}
use anger.Common.Memory.{u32_bytes}
use anger.Util.{htonl}
use anger.EndPoint.{EndPoint}
use anger.Sequence.{is_sequence_newer}
use anger.Link.State.{ReliableNewestItem, ReliableNewestDataGroup}
use anger.Link.Dispatch.{write_items, write_groups, add_item, add_group, group_bytes}
use anger.VariableGroup.{NetVariable, VariableGroup, PostUpdate, new_variable_group}
use anger.VariableGroupNode.State.{
  VariableGroupNode, Effect, Environment, find_group, find_remote, put_group, erase_buffered,
}
use anger.VariableGroupNode.Ids.{recv_id_request, send_id_pack_provide, words, count_ids}
use anger.VariableGroupNode.Receive.{recv_variable_group_destroy, recv_variable_group_update}
use anger.VariableGroupNode.Update.{id_bytes}
use anger.VariableGroupNode.Network.{
  Network, Step, Reachable, everywhere, held, held_by_all, in_packs, occurrences, packs_of,
}
use anger.VariableGroupNode.Network.Unique.{AreUnique, Reachable-AreUnique}
use anger.VariableGroupNode.Kept.{kept_events, behind_first}
use anger.VariableGroupNode.Destroy.{destroy, places, remote_places, heard}
use anger.VariableGroupNode.Sync.{sync}
use anger.VariableGroupNode.Sync.Variables.{AreMatched, received, took}

abbrev peer : EndPoint
peer = record { host = 16777343; port = 37151 }

abbrev server_environment : Environment
server_environment = record {
  is_authorative = true;
  is_p2p = false;
  num_open_connections = 1;
  is_packet_delivered = λ t. true;
  ticket_of = λ i. none;
  create_events = record {
    write_event = λ name params id owner. some (name ++ params);
    read_event = λ bytes. none;
    forward_event = λ bytes e. some bytes;
  };
  user_variables = λ name params. none;
}

-- A node without groups.
abbrev fresh : VariableGroupNode
fresh = record {
  is_network_id_provider = false;
  unique_ids = [];
  pending_groups = [];
  buffered_groups = [];
  variable_groups = [];
  remote_variable_groups = [];
  last_id_pack_request_ts = 0;
  unique_id_counter = 0;
}

abbrev start : Network
start = record {
  provider = record fresh { is_network_id_provider = true };
  others = fresh ∷ [];
  in_flight = [];
}

-- The provider is asked for ids.
abbrev offered : Network
offered = record start {
  provider = (recv_id_request peer start.provider).0;
  in_flight = packs_of (recv_id_request peer start.provider).1;
}

-- A pack of 25 ids is on its way, and the provider counts on from there.
offered-packs : map words offered.in_flight ≡ (count_ids 25 0).0 ∷ []
unfolding packs_of recv_id_request send_id_pack_provide words count_ids add32
offered-packs = refl

offered-counter : offered.provider.unique_id_counter ≡ 25
unfolding recv_id_request send_id_pack_provide count_ids add32
offered-counter = refl

start-AreUnique : AreUnique start
unfolding everywhere held held_by_all in_packs occurrences
start-AreUnique x = omega arith

Reachable-AreUnique_example : AreUnique offered
Reachable-AreUnique_example =
    Reachable-AreUnique
      (Reachable.there (Reachable.here start) (Step.asked start peer (omega arith))) start-AreUnique

-- A node that keeps the event of one group, which a peer has created with one variable.
abbrev variable : NetVariable
variable = record {
  data_bytes = 1 ∷ 2 ∷ [];
  prev_data = 0 ∷ 0 ∷ [];
  length_of_data = 2;
  changed = false;
  has_callback = true;
}

abbrev group : VariableGroup
group = record new_variable_group { network_id = some 7; variables = variable ∷ [] }

abbrev holder : VariableGroupNode
holder = record fresh {
  buffered_groups = (7, 97 ∷ 0 ∷ []) ∷ [];
  remote_variable_groups = (peer, (7, group) ∷ []) ∷ [];
}

holder-finds : find_group 7 holder ≡ some group
unfolding find_group find_remote find
holder-finds = refl

places-holder : places 7 holder ≤ 1
unfolding places remote_places find
places-holder = omega arith

destroy_example :
    let (n', es) = recv_variable_group_destroy server_environment (id_bytes 7) peer holder in
    ((j : ℕ) → find_group j n' ≡ (if j == 7 then none else find_group j holder))
    × ((j : ℕ)
        → kept_events j n'.buffered_groups ≡ (
            if (j == 7) && true
            then behind_first (kept_events j holder.buffered_groups)
            else kept_events j holder.buffered_groups))
    × (es ≡ (Effect.relay peer 16 (id_bytes 7) ∷ []) ++ heard peer 7 (find_group 7 holder))
destroy_example = destroy server_environment 7 peer holder (omega arith) places-holder

-- The id is sent in network byte order, and the event that was kept is forgotten.
id_bytes-seven : id_bytes 7 ≡ 0 ∷ 0 ∷ 0 ∷ 7 ∷ []
unfolding id_bytes htonl
id_bytes-seven = refl

forgotten : kept_events 7 (erase_buffered 7 holder.buffered_groups) ≡ []
unfolding erase_buffered kept_events
forgotten = refl

-- The group of the sender: one item that is sent, and fifteen without data.
abbrev empty_item : ReliableNewestItem
empty_item = record {
  local_revision = 0;
  remote_revision = 0;
  data_len = 0;
  data_capacity = 0;
  buffer = [];
}

abbrev sent_item : ReliableNewestItem
sent_item = record {
  local_revision = 2;
  remote_revision = 1;
  data_len = 2;
  data_capacity = 2;
  buffer = 8 ∷ 9 ∷ [];
}

abbrev sent_group : ReliableNewestDataGroup
sent_group = record { group_items = sent_item ∷ replicate 15 empty_item; data_id = 7 }

abbrev payload : List ℕ
payload = 7 ∷ 0 ∷ 0 ∷ 0 ∷ 255 ∷ 255 ∷ 10 ∷ 0 ∷ 8 ∷ 9 ∷ []

written : write_groups 13 ((7, sent_group) ∷ []) ≡ some (1, payload)
unfolding write_groups write_items add_item add_group group_bytes is_sequence_newer
written = refl

matched : AreMatched sent_group.group_items group.variables
matched = omega arith

sync_example :
    (updates : List PostUpdate) × (recv_variable_group_update (u32_bytes 1 ++ payload) peer holder
      ≡ some (
        put_group 7
            (record group { variables = received sent_group.group_items group.variables })
            holder,
        map Effect.post_update updates ++ (Effect.group_updated (some peer) 7 ∷ []),
      ))
unfolding new_variable_group
sync_example =
    sync 7 sent_group payload peer holder group written refl (omega arith) holder-finds refl
      (omega arith) matched

-- The variable has the bytes of the sender, and its callback hears of the old and the new ones.
received-bytes :
    map (λ v. v.data_bytes) (received sent_group.group_items group.variables) ≡ (8 ∷ 9 ∷ []) ∷ []
unfolding received took is_sequence_newer
received-bytes = refl
