-- ===== src/VariableGroupNode/Network/Unique.antt =====
-- No network id is in two places (GameConn/VariableGroupNode.cpp).
use anger.Common.{
  ℕ, ◌+◌, ◌≤◌, ◌<◌, ◌≡◌, refl, Bool, true, false, List, [], ◌∷◌, ◌++◌, map, length, ltb, leb, ◌&&◌,
  if◌then◌else◌, arith, Bool-cases, Option-cases, inl, inr, ap, ◌∙◌,
}
use anger.Common.OrderedMap.{OrderedMap}
use anger.EndPoint.{EndPoint}
use anger.VariableGroup.{VariableGroup}
use anger.VariableGroupNode.State.{VariableGroupNode, Environment, BufferedGroup, available_ids}
use anger.VariableGroupNode.Ids.{
  words, take_own_ids, recv_id_request, recv_id_provide, send_id_pack_provide,
}
use anger.VariableGroupNode.Create.{resolve_pending_groups, deferred_create_group}
use anger.VariableGroupNode.Update.{
  send_updated_group, forget_buffered, send_updated_groups, send_updated_variable_groups,
}
use anger.VariableGroupNode.Network.{
  Network, Step, Reachable, occurrences, held, held_by_all, in_packs, everywhere, packs_of,
}
use anger.VariableGroupNode.Network.Counts.{
  occurrences-append, held_by_all-append, in_packs-append, count_ids_counter, occurrences-count_ids,
  words-bytes, resolve_pending_groups-held, resolve_pending_groups-own, resolve_loop-counter,
}

-- The groups that are left have the ids that they had.
send_updated_groups-occurrences :
    (x : ℕ) (env : Environment) (m : OrderedMap VariableGroup) (buffered : List BufferedGroup)
    → occurrences x (map (λ e. e.0) (send_updated_groups env m buffered).0)
      ≤ occurrences x (map (λ e. e.0) m)
unfolding send_updated_groups occurrences
send_updated_groups-occurrences x env [] buffered = omega arith
send_updated_groups-occurrences x env ((k, g) ∷ m) buffered =
    elim (Option-cases (send_updated_group env g).0) [
      | inl e ↦
          rw (e, send_updated_groups)
            (omega (
              arith,
              send_updated_groups-occurrences x env m
                  (forget_buffered env (send_updated_group env g).0 g buffered),
            ))
      | inr (g', e) ↦
          rw (e, send_updated_groups)
            (omega (
              arith,
              send_updated_groups-occurrences x env m
                  (forget_buffered env (send_updated_group env g).0 g buffered),
            ))
    ]

send_updated-held :
    (x : ℕ) (env : Environment) (n : VariableGroupNode)
    → held x (send_updated_variable_groups env n).0 ≤ held x n
unfolding held send_updated_variable_groups
send_updated-held x env n =
    omega (arith, send_updated_groups-occurrences x env n.variable_groups n.buffered_groups)

-- The counter of the provider moves by what it counted.
resolve_pending_groups-counter :
    (env : Environment) (n : VariableGroupNode)
    → n.unique_id_counter + length n.pending_groups < 4294967296
    → (resolve_pending_groups env n).0.unique_id_counter ≡ (
        if n.is_network_id_provider
        then n.unique_id_counter + length n.pending_groups
        else n.unique_id_counter)
unfolding resolve_pending_groups take_own_ids
resolve_pending_groups-counter env n h =
    resolve_loop-counter env n.pending_groups (take_own_ids n)
    ∙ ground (arith, count_ids_counter (length n.pending_groups) n.unique_id_counter h)

-- A pack has the ids between the counter before and after.
module _ (x : ℕ) (e : EndPoint) (n : VariableGroupNode)
    (h : n.unique_id_counter + available_ids < 4294967296) where
  pack-held : held x (send_id_pack_provide e available_ids n).0 ≡ held x n
  unfolding send_id_pack_provide held
  pack-held = refl

  pack-counter :
      (send_id_pack_provide e available_ids n).0.unique_id_counter
      ≡ n.unique_id_counter + available_ids
  unfolding send_id_pack_provide
  pack-counter = count_ids_counter available_ids n.unique_id_counter h

  pack-in_packs :
      in_packs x (packs_of (send_id_pack_provide e available_ids n).1)
      ≡ (if leb n.unique_id_counter x && ltb x (n.unique_id_counter + available_ids) then 1 else 0)
  unfolding send_id_pack_provide in_packs packs_of
  pack-in_packs = omega (
    arith,
    ap (occurrences x) (words-bytes available_ids n.unique_id_counter h),
    occurrences-count_ids x available_ids n.unique_id_counter h,
  )

  -- A request is answered with at most a pack.
  request-counts :
      (held x (recv_id_request e n).0 ≡ held x n)
      × (in_packs x (packs_of (recv_id_request e n).1)
            + (if ltb x n.unique_id_counter then 1 else 0)
          ≤ (if ltb x (recv_id_request e n).0.unique_id_counter then 1 else 0))
  unfolding recv_id_request
  request-counts = answered n.is_network_id_provider
    where
      answered :
          (b : Bool)
          → let r = if b then send_id_pack_provide e available_ids n else (n, []) in
            (held x r.0 ≡ held x n)
            × (in_packs x (packs_of r.1) + (if ltb x n.unique_id_counter then 1 else 0)
                ≤ (if ltb x r.0.unique_id_counter then 1 else 0))
      answered true = (pack-held, rw (pack-in_packs, pack-counter) (ground arith))
      answered false = (refl, unfold packs_of in_packs in omega arith)

recv_id_provide-held :
    (x : ℕ) (pack : List ℕ) (n : VariableGroupNode)
    → held x (recv_id_provide pack n) ≤ occurrences x (words pack) + held x n
unfolding held recv_id_provide
recv_id_provide-held x pack n = ground (arith, occurrences-append x n.unique_ids (words pack))

-- Every id is in one place at most, and those that are not counted yet are nowhere.
abbrev pub AreUnique : Network → Type 0
AreUnique w = (x : ℕ) → everywhere x w ≤ (if ltb x w.provider.unique_id_counter then 1 else 0)

-- The ids of one of the other nodes, among those of all.
held-among :
    (x : ℕ) (front back : List VariableGroupNode) (n : VariableGroupNode)
    → held_by_all x (front ++ (n ∷ back)) ≡ held_by_all x front + (held x n + held_by_all x back)
unfolding held_by_all
held-among x front back n = held_by_all-append x front (n ∷ back)

in_packs-among :
    (x : ℕ) (before after : List (List ℕ)) (pack : List ℕ)
    → in_packs x (before ++ (pack ∷ after))
      ≡ occurrences x (words pack) + in_packs x (before ++ after)
unfolding in_packs
in_packs-among x before after pack =
    omega (arith, in_packs-append x before (pack ∷ after), in_packs-append x before after)

resolved_own-AreUnique :
    (x : ℕ) (env : Environment) (n : VariableGroupNode)
    → n.unique_id_counter + length n.pending_groups < 4294967296
    → held x (resolve_pending_groups env n).0 + (if ltb x n.unique_id_counter then 1 else 0)
      ≤ held x n + (if ltb x (resolve_pending_groups env n).0.unique_id_counter then 1 else 0)
resolved_own-AreUnique x env n h = elim (Bool-cases n.is_network_id_provider) [
  | inr other ↦
      ground
        (arith, resolve_pending_groups-held x env n other, resolve_pending_groups-counter env n h)
  | inl own ↦
      ground (arith, resolve_pending_groups-own x env n h, resolve_pending_groups-counter env n h)
]

deferred-held :
    (x : ℕ) (stale group : List ℕ) (n : VariableGroupNode)
    → held x (deferred_create_group stale group n) ≡ held x n
unfolding held deferred_create_group
deferred-held x stale group n = refl

Step-AreUnique : {u v : Network} → Step u v → AreUnique u → AreUnique v
unfolding everywhere send_updated_variable_groups deferred_create_group
Step-AreUnique (Step.asked w e h) a x = omega (
  arith,
  a x,
  request-counts x e w.provider h,
  in_packs-append x w.in_flight (packs_of (recv_id_request e w.provider).1),
)
Step-AreUnique (Step.arrived w front back n before after pack) a x = omega (
  arith,
  a x,
  held-among x front back n,
  held-among x front back (recv_id_provide pack n),
  in_packs-among x before after pack,
  recv_id_provide-held x pack n,
)
Step-AreUnique (Step.lost w before after pack) a x =
    omega (arith, a x, in_packs-among x before after pack)
Step-AreUnique (Step.deferred w front back n stale group) a x = omega (
  arith,
  a x,
  held-among x front back n,
  held-among x front back (deferred_create_group stale group n),
  deferred-held x stale group n,
)
Step-AreUnique (Step.resolved w front back n env h) a x = omega (
  arith,
  a x,
  held-among x front back n,
  held-among x front back (resolve_pending_groups env n).0,
  resolve_pending_groups-held x env n h,
)
Step-AreUnique (Step.updated w front back n env) a x = omega (
  arith,
  a x,
  held-among x front back n,
  held-among x front back (send_updated_variable_groups env n).0,
  send_updated-held x env n,
)
Step-AreUnique (Step.deferred_own w stale group) a x =
    omega (arith, a x, deferred-held x stale group w.provider)
Step-AreUnique (Step.resolved_own w env h) a x =
    omega (arith, a x, resolved_own-AreUnique x env w.provider h)
Step-AreUnique (Step.updated_own w env) a x = omega (arith, a x, send_updated-held x env w.provider)

-- Network ids are unique: in every network that is reached from one where it is so, no id is in two
-- places, be it among the ids that a node may still use, as the id of one of its own groups, or in a
-- pack that has not arrived, and no id that the provider has not yet counted is anywhere. Packs may
-- be lost and arrive in any order; the counter of the provider stays below 2^32.
pub Reachable-AreUnique : {u w : Network} → Reachable u w → AreUnique u → AreUnique w
Reachable-AreUnique (Reachable.here w) a = a
Reachable-AreUnique (Reachable.there r s) a = Step-AreUnique s (Reachable-AreUnique r a)
