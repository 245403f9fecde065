-- ===== src/VariableGroupNode/Network.antt =====
-- The network ids of a whole network: one node that provides them, and the others, over what
-- GameConn/VariableGroupNode.cpp does with ids.
pub mod Counts
pub mod Unique
use anger.Common.{
  ℕ, zero, suc, ◌+◌, ◌*◌, ◌≤◌, ◌<◌, ◌≡◌, refl, Bool, true, false, List, [], ◌∷◌, ◌++◌, map, Option,
  none, some, length, ◌==◌, ltb, leb, ◌&&◌, if◌then◌else◌, arith, concat, Bool-cases, inl, inr,
}
use anger.Common.OrderedMap.{OrderedMap, insert}
use anger.EndPoint.{EndPoint}
use anger.VariableGroup.{VariableGroup}
use anger.VariableGroupNode.State.{VariableGroupNode, Effect, Environment, available_ids}
use anger.VariableGroupNode.Ids.{recv_id_request, recv_id_provide, count_ids, words}
use anger.VariableGroupNode.Create.{resolve_pending_groups, deferred_create_group}
use anger.VariableGroupNode.Update.{send_updated_variable_groups}

-- The nodes, and the packs of ids that are sent and have not arrived.
pub record Network : Type 0 where
  pub provider : VariableGroupNode
  pub others : List VariableGroupNode
  pub in_flight : List (List ℕ)

-- The packs among what a node sends.
unfoldable pub packs_of : List Effect → List (List ℕ)
packs_of [] = []
packs_of (Effect.provide_ids e payload ∷ es) = payload ∷ packs_of es
packs_of (_ ∷ es) = packs_of es

-- What happens in the network: the provider is asked for ids, a pack arrives or is lost, a node gets
-- a group to create, gives ids to its pending groups, or sends and deletes groups. The counter of the
-- provider does not run over.
pub data Step : Network → Network → Type 0 where
  asked :
      (w : Network) (e : EndPoint)
      → w.provider.unique_id_counter + available_ids < 4294967296
      → Step w (record w {
        provider = (recv_id_request e w.provider).0;
        in_flight = w.in_flight ++ packs_of (recv_id_request e w.provider).1;
      })
  arrived :
      (w : Network) (front back : List VariableGroupNode) (n : VariableGroupNode)
      (before after : List (List ℕ)) (pack : List ℕ)
      → Step
          (record w { others = front ++ (n ∷ back); in_flight = before ++ (pack ∷ after) })
          (record w {
            others = front ++ (recv_id_provide pack n ∷ back);
            in_flight = before ++ after;
          })
  lost :
      (w : Network) (before after : List (List ℕ)) (pack : List ℕ)
      → Step
          (record w { in_flight = before ++ (pack ∷ after) })
          (record w { in_flight = before ++ after })
  deferred :
      (w : Network) (front back : List VariableGroupNode) (n : VariableGroupNode)
      (stale group : List ℕ)
      → Step
          (record w { others = front ++ (n ∷ back) })
          (record w { others = front ++ (deferred_create_group stale group n ∷ back) })
  resolved :
      (w : Network) (front back : List VariableGroupNode) (n : VariableGroupNode)
      (env : Environment)
      → n.is_network_id_provider ≡ false
      → Step
          (record w { others = front ++ (n ∷ back) })
          (record w { others = front ++ ((resolve_pending_groups env n).0 ∷ back) })
  updated :
      (w : Network) (front back : List VariableGroupNode) (n : VariableGroupNode)
      (env : Environment)
      → Step
          (record w { others = front ++ (n ∷ back) })
          (record w { others = front ++ ((send_updated_variable_groups env n).0 ∷ back) })
  deferred_own :
      (w : Network) (stale group : List ℕ)
      → Step w (record w { provider = deferred_create_group stale group w.provider })
  resolved_own :
      (w : Network) (env : Environment)
      → w.provider.unique_id_counter + length w.provider.pending_groups < 4294967296
      → Step w (record w { provider = (resolve_pending_groups env w.provider).0 })
  updated_own :
      (w : Network) (env : Environment)
      → Step w (record w { provider = (send_updated_variable_groups env w.provider).0 })

pub data Reachable : Network → Network → Type 0 where
  here : (w : Network) → Reachable w w
  there : {u v w : Network} → Reachable u v → Step v w → Reachable u w

-- How often a number is in a list.
unfoldable pub occurrences : ℕ → List ℕ → ℕ
occurrences x [] = 0
occurrences x (y ∷ ys) = (if x == y then 1 else 0) + occurrences x ys

-- The ids that a node has: those it may use, and those of its groups.
unfoldable pub held : ℕ → VariableGroupNode → ℕ
unfolding occurrences
held x n = occurrences x n.unique_ids + occurrences x (map (λ e. e.0) n.variable_groups)

unfoldable pub held_by_all : ℕ → List VariableGroupNode → ℕ
unfolding held
held_by_all x [] = 0
held_by_all x (n ∷ ns) = held x n + held_by_all x ns

-- The ids in the packs, as they are read.
unfoldable pub in_packs : ℕ → List (List ℕ) → ℕ
unfolding occurrences words
in_packs x [] = 0
in_packs x (pack ∷ packs) = occurrences x (words pack) + in_packs x packs

-- How often an id is anywhere in the network.
unfoldable pub everywhere : ℕ → Network → ℕ
unfolding held held_by_all in_packs
everywhere x w = held x w.provider + held_by_all x w.others + in_packs x w.in_flight
