-- ===== src/VariableGroup.antt =====
-- NetVariable (GameConn/NetVariable.h, GameConn/NetVariable.cpp) and VariableGroup
-- (GameConn/VariableGroup.h, GameConn/VariableGroup.cpp). A group holds its variables; the pointer of
-- a variable back to its group is the group that holds it.
use anger.Common.{
  ℕ, zero, suc, ◌+◌, ◌/◌, ◌%◌, Bool, true, false, not, ◌&&◌, List, [], ◌∷◌, ◌++◌, map, Option, none,
  some, length, take, drop, ltb, leb, ◌==◌, if◌then◌else◌,
}
use anger.Util.{same_text}
use anger.EndPoint.{EndPoint}
use anger.Link.State.{max_items_per_group}

-- EVarControl
pub data VarControl : Type 0 where
  full semi remote : VarControl

-- `m_Length` is the length of the data; `has_callback` says that m_PostUpdateCallback is bound.
pub record NetVariable : Type 0 where
  pub data_bytes : List ℕ
  pub prev_data : List ℕ
  pub length_of_data : ℕ
  pub changed : Bool
  pub has_callback : Bool

-- A call of a bound callback, with the bytes before and now.
abbrev pub PostUpdate : Type 0
PostUpdate = List ℕ × List ℕ

-- ZAckTicket, as isPacketDelivered takes it
pub record AckTicket : Type 0 where
  pub end_point : EndPoint
  pub sequence : ℕ
  pub num_fragments : ℕ
  pub channel : ℕ

-- The network id is `none` for -1; the ticket is `none` before it is set.
pub record VariableGroup : Type 0 where
  pub broken : Bool
  pub destroy_sent : Bool
  pub dirty : Bool
  pub network_id : Option ℕ
  pub owner : Option EndPoint
  pub control : VarControl
  pub variables : List NetVariable
  pub remote_created_ticket : Option AckTicket
  pub remote_created : Bool

-- NetVariable::read, from the bytes that are left: those behind, and the variable; `none` is `false`.
unfoldable pub read_variable :
    List ℕ → NetVariable → Option (List ℕ × NetVariable × List PostUpdate)
unfolding same_text
read_variable rest v =
    let bytes = take v.length_of_data rest in
    let prev = if v.has_callback then v.data_bytes else v.prev_data in
    if ltb (length rest) v.length_of_data
    then none
    else some (
      drop v.length_of_data rest,
      record v { data_bytes = bytes; prev_data = prev },
      (if v.has_callback && not (same_text bytes prev) then (prev, bytes) ∷ [] else []),
    )

-- The loop of VariableGroup::read; `bits` are the bits of the group from that of the first variable
-- on. It gives the variables, and the bytes that are left or `none` for `false`.
unfoldable pub read_variables :
    ℕ → List ℕ → List NetVariable → List NetVariable × Option (List ℕ) × List PostUpdate
read_variables bits rest [] = ([], some rest, [])
read_variables bits rest (v ∷ vs) = elim (bits % 2 == 1) [
  | false ↦ let (vs', left, updates) = read_variables (bits / 2) rest vs in (v ∷ vs', left, updates)
  | true ↦ elim (read_variable rest v) [
    | none ↦ (v ∷ vs, none, [])
    | some (rest', v', now) ↦
        let (vs', left, updates) = read_variables (bits / 2) rest' vs in
        (v' ∷ vs', left, now ++ updates)
  ]
]

-- VariableGroup::read
unfoldable pub read_group :
    ℕ → List ℕ → VariableGroup → VariableGroup × Option (List ℕ) × List PostUpdate
read_group bits rest g =
    let (vs, left, updates) = read_variables bits rest g.variables in
    if leb (length g.variables) max_items_per_group
    then (record g { variables = vs }, left, updates)
    else (g, none, [])

-- VariableGroup::VariableGroup
unfoldable pub new_variable_group : VariableGroup
new_variable_group = record {
  broken = false;
  destroy_sent = false;
  dirty = false;
  network_id = none;
  owner = none;
  control = VarControl.full;
  variables = [];
  remote_created_ticket = none;
  remote_created = false;
}

-- setNetworkId: an id is set once.
unfoldable pub set_network_id : ℕ → VariableGroup → VariableGroup
set_network_id id g = elim g.network_id [ some old ↦ g | none ↦ record g { network_id = some id } ]

-- setOwner
unfoldable pub set_owner : Option EndPoint → VariableGroup → VariableGroup
set_owner none g = g
set_owner (some e) g = record g { owner = some e }

-- The variables that sendGroup sends: the item of the group and the bytes.
unfoldable pub changed_items : ℕ → List NetVariable → List (ℕ × List ℕ)
changed_items i [] = []
changed_items i (v ∷ vs) =
    let rest = changed_items (i + 1) vs in if v.changed then (i, v.data_bytes) ∷ rest else rest

-- NetVariable::markUnchanged
unfoldable pub mark_unchanged : NetVariable → NetVariable
mark_unchanged v = record v { changed = false }

-- VariableGroup::sendGroup: the group, and what is given to sendReliableNewest.
unfoldable pub send_group : VariableGroup → VariableGroup × List (ℕ × List ℕ)
unfolding mark_unchanged
send_group g = (
  record g { variables = map mark_unchanged g.variables; dirty = false },
  changed_items 0 g.variables,
)

-- NetVariable::markChanged, of a variable of the group
unfoldable pub mark_changed : ℕ → VariableGroup → VariableGroup
mark_changed i g = record g { variables = mark i g.variables; dirty = true }
  where
    mark : ℕ → List NetVariable → List NetVariable
    mark i [] = []
    mark zero (v ∷ vs) = record v { changed = true } ∷ vs
    mark (suc i) (v ∷ vs) = v ∷ mark i vs

-- unrefVariables
unfoldable pub unref_variables : VariableGroup → VariableGroup
unref_variables g = record g { variables = []; broken = true }

-- isRemoteCreated; `delivered` is ZNode::isPacketDelivered. What is known is kept.
unfoldable pub is_remote_created : (AckTicket → Bool) → VariableGroup → Bool × VariableGroup
is_remote_created delivered g =
    if g.remote_created then (true, g) else elim g.remote_created_ticket [
      | none ↦ (false, g)
      | some t ↦ (delivered t, record g { remote_created = delivered t })
    ]
