-- ===== src/VariableGroupNode/Destroy.antt =====
-- The end of a group: VariableGroupNode::recvVariableGroupDestroy with findGroup and removeGroup
-- (GameConn/VariableGroupNode.cpp).
use anger.Common.{
  ℕ, ◌+◌, ◌≡◌, ◌≢◌, ◌<◌, ◌≤◌, refl, ap, not, ◌&&◌, ◌||◌, List, [], ◌∷◌, ◌++◌, Option, none, some,
  arith, if◌then◌else◌, Bool-cases, Option-cases, inl, inr, ◌==◌, ◌∙◌,
}
use anger.Common.Memory.{u32_of_bytes}
use anger.Util.{htonl}
use anger.Util.ByteOrder.{htonl-htonl, htonl-lt}
use anger.VariableGroupNode.Update.{id_bytes}
use anger.Common.OrderedMap.{OrderedMap, find, find-erase}
use anger.EndPoint.{EndPoint}
use anger.VariableGroup.{VariableGroup}
use anger.VariableGroupNode.State.{
  VariableGroupNode, Effect, Environment, find_remote, find_group, remove_remote, remove_group,
  un_buffer_group, erase_buffered,
}
use anger.VariableGroupNode.Receive.{
  read_id, recv_variable_group_destroy, remove_found, relay_destroy,
}
use anger.VariableGroupNode.Kept.{kept_events, behind_first, kept_events-relayed}

find_remote-remove_remote :
    (id j : ℕ) (m : List (EndPoint × OrderedMap VariableGroup))
    → j ≢ id
    → find_remote j (remove_remote id m) ≡ find_remote j m
unfolding find_remote remove_remote
find_remote-remove_remote id j [] ne = refl
find_remote-remove_remote id j ((e, groups) ∷ m) ne = ground (
  arith,
  find_remote-remove_remote id j m ne,
  find-erase id j groups,
  Option-cases (find id groups),
  Option-cases (find j groups),
)

pub find_group-remove_group :
    (id j : ℕ) (n : VariableGroupNode)
    → j ≢ id
    → find_group j (remove_group id n).1 ≡ find_group j n
unfolding find_group remove_group
find_group-remove_group id j n ne = ground (
  arith,
  find_remote-remove_remote id j n.remote_variable_groups ne,
  find-erase id j n.variable_groups,
  Option-cases (find_remote id n.remote_variable_groups),
  Option-cases (find id n.variable_groups),
)

-- In how many of the maps of the node an id is.
unfoldable pub remote_places : ℕ → List (EndPoint × OrderedMap VariableGroup) → ℕ
unfolding find
remote_places id [] = 0
remote_places id ((e, groups) ∷ m) =
    (elim (find id groups) [ none ↦ 0 | some g ↦ 1 ]) + remote_places id m

unfoldable pub places : ℕ → VariableGroupNode → ℕ
unfolding find
places id n =
    remote_places id n.remote_variable_groups
    + (elim (find id n.variable_groups) [ none ↦ 0 | some g ↦ 1 ])

nowhere :
    (id : ℕ) (m : List (EndPoint × OrderedMap VariableGroup))
    → remote_places id m ≡ 0
    → find_remote id m ≡ none
unfolding remote_places find_remote
nowhere id [] h = refl
nowhere id ((e, groups) ∷ m) h = ground (arith, nowhere id m, Option-cases (find id groups))

somewhere :
    (id : ℕ) (m : List (EndPoint × OrderedMap VariableGroup)) {g : VariableGroup}
    → find_remote id m ≡ some g
    → 1 ≤ remote_places id m
unfolding remote_places find_remote
somewhere id [] {g} h = cc
somewhere id ((e, groups) ∷ m) {g} h =
    ground (arith, somewhere id m {g = g}, Option-cases (find id groups))

find_remote-removed :
    (id : ℕ) (m : List (EndPoint × OrderedMap VariableGroup))
    → remote_places id m ≤ 1
    → find_remote id (remove_remote id m) ≡ none
unfolding find_remote remove_remote remote_places
find_remote-removed id [] h = refl
find_remote-removed id ((e, groups) ∷ m) h = ground (
  arith,
  find_remote-removed id m,
  nowhere id m,
  find-erase id id groups,
  Option-cases (find id groups),
)

pub remove_group-removed :
    (id : ℕ) (n : VariableGroupNode) → places id n ≤ 1 → find_group id (remove_group id n).1 ≡ none
unfolding find_group remove_group places
remove_group-removed id n h = elim (Option-cases (find_remote id n.remote_variable_groups)) [
  | inl missing ↦
      ground (arith, find-erase id id n.variable_groups, Option-cases (find id n.variable_groups))
  | inr (g, there) ↦ ground (
    arith,
    find_remote-removed id n.remote_variable_groups,
    somewhere id n.remote_variable_groups there,
    Option-cases (find id n.variable_groups),
  )
]

read_id-id_bytes : (id : ℕ) → id < 4294967296 → read_id (id_bytes id) ≡ some id
unfolding read_id id_bytes
read_id-id_bytes id h =
    ap some (ap htonl (u32_of_bytes (htonl id) (htonl-lt id h)) ∙ htonl-htonl id h)

-- Who hears that a group is destroyed.
abbrev pub heard : EndPoint → ℕ → Option VariableGroup → List Effect
heard e id none = []
heard e id (some g) = Effect.group_destroyed (some e) id ∷ []

remove_found_lem :
    (e : EndPoint) (id : ℕ) (n : VariableGroupNode)
    → places id n ≤ 1
    → ((j : ℕ) → find_group j (remove_found e id n).0 ≡ (if j == id then none else find_group j n))
      × ((remove_found e id n).0.buffered_groups ≡ n.buffered_groups)
      × ((remove_found e id n).1 ≡ heard e id (find_group id n))
unfolding remove_found
remove_found_lem e id n one = elim (Option-cases (find_group id n)) [
  | inl missing ↦ rw (missing, remove_found) ((λ j. kept j missing), refl, refl)
  | inr (g, there) ↦ rw (there, remove_found) (gone, removed_buffered, refl)
]
  where
    kept :
        (j : ℕ)
        → find_group id n ≡ none
        → find_group j n ≡ (if j == id then none else find_group j n)
    kept j missing = ground arith

    gone : (j : ℕ) → find_group j (remove_group id n).1 ≡ (if j == id then none else find_group j n)
    gone j = ground (arith, remove_group-removed id n one, find_group-remove_group id j n)

    removed_buffered : (remove_group id n).1.buffered_groups ≡ n.buffered_groups
    removed_buffered = unfold remove_group in ground arith

relay_destroy_lem :
    (env : Environment) (id j : ℕ) (payload : List ℕ) (e : EndPoint) (n : VariableGroupNode)
    → (find_group j (relay_destroy env id payload e n).0 ≡ find_group j n)
      × (places id (relay_destroy env id payload e n).0 ≡ places id n)
unfolding relay_destroy find_group places
relay_destroy_lem env id j payload e n = elim (Bool-cases (env.is_authorative || not env.is_p2p)) [
  | inl p ↦ rw (p, relay_destroy) (refl, refl)
  | inr p ↦ rw (p, relay_destroy) (refl, refl)
]

relay_destroy-relayed :
    (env : Environment) (id : ℕ) (payload : List ℕ) (e : EndPoint) (n : VariableGroupNode)
    → let (n', es) = relay_destroy env id payload e n in
      (n'.buffered_groups
        ≡ (if env.is_authorative then erase_buffered id n.buffered_groups else n.buffered_groups))
      × (es ≡ (if env.is_p2p && not env.is_authorative then [] else Effect.relay e 16 payload ∷ []))
unfolding relay_destroy un_buffer_group
relay_destroy-relayed env id payload e n = (ground arith, ground arith)

-- The news that a group is destroyed, as sendDestroyVariableGroup writes it, for an id that is in one
-- map of the node at most: the group is gone, and every other group is as it was. The news is sent
-- on as it came by every node but a peer without authority; the first event that is kept for the
-- group is forgotten by a node with authority only, and no other event is; and the listeners hear of
-- the end exactly if the group was there.
pub destroy :
    (env : Environment) (id : ℕ) (e : EndPoint) (n : VariableGroupNode)
    → id < 4294967296
    → places id n ≤ 1
    → let (n', es) = recv_variable_group_destroy env (id_bytes id) e n in
      ((j : ℕ) → find_group j n' ≡ (if j == id then none else find_group j n))
      × ((j : ℕ)
          → kept_events j n'.buffered_groups ≡ (
              if (j == id) && env.is_authorative
              then behind_first (kept_events j n.buffered_groups)
              else kept_events j n.buffered_groups))
      × (es
          ≡ (if env.is_p2p && not env.is_authorative
              then []
              else Effect.relay e 16 (id_bytes id) ∷ [])
            ++ heard e id (find_group id n))
unfolding recv_variable_group_destroy
destroy env id e n h one =
    let bytes = id_bytes id in
    let m = (relay_destroy env id bytes e n).0 in
    let few : places id m ≤ 1 = omega (arith, (relay_destroy_lem env id 0 bytes e n).1) in
    let (gone, buffered, told) = remove_found_lem e id m few in
    let (kept, relayed) = relay_destroy-relayed env id bytes e n in
    rw (read_id-id_bytes id h, recv_variable_group_destroy)
      (
        λ j.
            gone j ∙ ap (λ o. if j == id then none else o) (relay_destroy_lem env id j bytes e n).0,
        λ j. ap (kept_events j) (buffered ∙ kept) ∙ kept_events-relayed env j id n.buffered_groups,
        ap (◌++ (remove_found e id m).1) relayed
            ∙ ap
                ((if env.is_p2p && not env.is_authorative then [] else Effect.relay e 16 bytes ∷ [])
                  ++◌)
                (told ∙ ap (heard e id) (relay_destroy_lem env id id bytes e n).0),
      )
