-- ===== src/VariableGroupNode/Sync/SentGroups.antt =====
-- One group of an update: what RUDPLink::dispatchReliableNewestQueue (GameConn/RUDPLink.cpp) writes
-- for it, and what VariableGroupNode::deserializeGroup (GameConn/VariableGroupNode.cpp) makes of it.
use anger.Common.{
  ℕ, ◌+◌, ◌*◌, ◌/◌, ◌%◌, ◌≡◌, ◌<◌, ◌≤◌, refl, ap, Bool, true, false, List, [], ◌∷◌, ◌++◌, none,
  some, arith, length, map, leb, Option-cases, inl, inr, sym, ◌∙◌,
}
use mathlib.Core.List.{append-nil}
use anger.Common.Memory.{u32_of_bytes}
use anger.Link.State.{ReliableNewestItem, ReliableNewestDataGroup, buff_size, max_items_per_group}
use anger.Link.Dispatch.{write_items, write_groups, add_group, group_bytes, Groups}
use anger.VariableGroup.{VariableGroup, PostUpdate, read_group}
use anger.VariableGroupNode.State.{VariableGroupNode, Effect, find_group, put_group}
use anger.VariableGroupNode.Receive.{Left, deserialize_items, deserialize_group}
use anger.VariableGroupNode.Sync.Variables.{received}
use anger.VariableGroupNode.Sync.SentItems.{WellRead}

u16_of_bytes : (b : ℕ) → b < 65536 → b % 256 + b / 256 % 256 * 256 ≡ b
u16_of_bytes b h = omega arith

-- The bytes of one group of the sender, in front of others, on a node that has the group.
module _ (id : ℕ) (items : List ReliableNewestItem) (b : ℕ) (bytes rest : List ℕ)
    (n : VariableGroupNode) (g : VariableGroup) where
  read_group-received :
      (r : WellRead 1 items g.variables b bytes)
      → length g.variables ≤ max_items_per_group
      → (updates : List PostUpdate) × (read_group b (bytes ++ rest) g
          ≡ (record g { variables = received items g.variables }, some rest, updates))
  unfolding read_group
  read_group-received r few =
      let (updates, e) = r.reads rest in (updates, rw (word_is_bits r, e, enough, read_group) refl)
    where
      word_is_bits : (r : WellRead 1 items g.variables b bytes) → b ≡ r.word
      word_is_bits r = omega (arith, r.bits_of_word)

      enough : leb (length g.variables) max_items_per_group ≡ true
      enough = ground arith

  deserialize_items-received :
      WellRead 1 items g.variables b bytes
      → find_group id n ≡ some g
      → g.broken ≡ false
      → length g.variables ≤ max_items_per_group
      → (updates : List PostUpdate) × ((skipped : Left)
          → deserialize_items id b (bytes ++ rest) skipped n ≡ (
            id,
            true,
            some rest,
            put_group id (record g { variables = received items g.variables }) n,
            map Effect.post_update updates,
          ))
  unfolding deserialize_items
  deserialize_items-received r found whole few =
      let (updates, e) = read_group-received r few in
      (updates, λ skipped. simp (found, e, whole, deserialize_items))

  pub deserialize_group-received :
      WellRead 1 items g.variables b bytes
      → id < 4294967296
      → b < 65536
      → find_group id n ≡ some g
      → g.broken ≡ false
      → length g.variables ≤ max_items_per_group
      → (updates : List PostUpdate) × (deserialize_group (group_bytes id b bytes ++ rest) n
          ≡ some (
            id,
            true,
            some rest,
            put_group id (record g { variables = received items g.variables }) n,
            map Effect.post_update updates,
          ))
  unfolding deserialize_group group_bytes
  deserialize_group-received r small bits_small found whole few =
      let (updates, e) = deserialize_items-received r found whole few in
      (
        updates,
        rw (u32_of_bytes id small, u16_of_bytes b bits_small, deserialize_group) (ap some (e _)),
      )

-- What is written for one group: none, if no item is.
abbrev one_group : Bool → List ℕ → Groups
one_group true bytes = some (1, bytes)
one_group false bytes = some (0, [])

write_groups-full :
    (size id : ℕ) (group : ReliableNewestDataGroup) (b : ℕ) (bytes : List ℕ) (any full : Bool)
    → write_items (size + 8) 1 group.group_items ≡ some (b, bytes, any)
    → leb buff_size (size + 8 + length bytes) ≡ full
    → write_groups size ((id, group) ∷ []) ≡ one_group any (group_bytes id b bytes)
unfolding write_groups add_group
write_groups-full size id group b bytes false full e f = rw (e, write_groups) refl
write_groups-full size id group b bytes true true e f = rw (e, f, write_groups) refl
write_groups-full size id group b bytes true false e f =
    rw (e, f, write_groups, add_group) (ap (λ xs. some (1, xs)) (append-nil _))

payload_of :
    (id b : ℕ) (bytes : List ℕ) (any : Bool) {payload : List ℕ}
    → one_group any (group_bytes id b bytes) ≡ some (1, payload)
    → payload ≡ group_bytes id b bytes ++ []
payload_of id b bytes true h = cc (h, append-nil (group_bytes id b bytes))
payload_of id b bytes false h = cc

write_groups-none :
    (size id : ℕ) (group : ReliableNewestDataGroup)
    → write_items (size + 8) 1 group.group_items ≡ none
    → write_groups size ((id, group) ∷ []) ≡ none
unfolding write_groups
write_groups-none size id group overrun = rw (overrun, write_groups) refl

pub write_groups-one :
    (size id : ℕ) (group : ReliableNewestDataGroup) {payload : List ℕ}
    → write_groups size ((id, group) ∷ []) ≡ some (1, payload)
    → (b : ℕ) × (bytes : List ℕ) × (any : Bool) × (write_items (size + 8) 1 group.group_items
        ≡ some (b, bytes, any))
      × (payload ≡ group_bytes id b bytes ++ [])
write_groups-one size id group {payload} h =
    elim (Option-cases (write_items (size + 8) 1 group.group_items)) [
      | inl overrun ↦ cc (h, write_groups-none size id group overrun)
      | inr ((b, bytes, any), e) ↦ (
        b,
        bytes,
        any,
        e,
        payload_of id b bytes any (sym (write_groups-full size id group b bytes any _ e refl) ∙ h),
      )
    ]
