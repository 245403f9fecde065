-- ===== src/VariableGroupNode/Network/Counts.antt =====
-- How often an id is in the lists of a VariableGroupNode (GameConn/VariableGroupNode.cpp), and what
-- its operations do to that.
use anger.Common.{
  ℕ, zero, suc, ◌+◌, ◌≤◌, ◌<◌, ◌≡◌, refl, Bool, true, false, List, [], ◌∷◌, ◌++◌, map, Option, none,
  length, ◌==◌, ltb, leb, ◌&&◌, if◌then◌else◌, arith, concat, Option-cases, inl, inr, ap, ◌⊎◌, ◌∙◌,
}
use anger.Common.Word.{add32_small}
use anger.Common.Memory.{u32_bytes, u32_of_bytes}
use anger.Common.OrderedMap.{OrderedMap, insert, place}
use anger.VariableGroup.{VariableGroup, AckTicket}
use anger.Util.{Text}
use anger.VariableGroupNode.State.{VariableGroupNode, Environment, PendingGroup}
use anger.VariableGroupNode.Ids.{count_ids, words, take_own_ids}
use anger.VariableGroupNode.Create.{
  begin_new_group, call_create_variable_group, send_create_variable_group, resolve_group,
  resolve_loop, resolve_pending_groups, make_group, func_name, param_data_of,
}
use anger.VariableGroupNode.Network.{occurrences, held, held_by_all, in_packs}

pub occurrences-append :
    (x : ℕ) (ys zs : List ℕ) → occurrences x (ys ++ zs) ≡ occurrences x ys + occurrences x zs
unfolding occurrences
occurrences-append x [] zs = omega arith
occurrences-append x (y ∷ ys) zs = omega (arith, occurrences-append x ys zs)

pub held_by_all-append :
    (x : ℕ) (ns ms : List VariableGroupNode)
    → held_by_all x (ns ++ ms) ≡ held_by_all x ns + held_by_all x ms
unfolding held_by_all
held_by_all-append x [] ms = omega arith
held_by_all-append x (n ∷ ns) ms = omega (arith, held_by_all-append x ns ms)

pub in_packs-append :
    (x : ℕ) (ps qs : List (List ℕ)) → in_packs x (ps ++ qs) ≡ in_packs x ps + in_packs x qs
unfolding in_packs
in_packs-append x [] qs = omega arith
in_packs-append x (p ∷ ps) qs = omega (arith, in_packs-append x ps qs)

-- The ids that are counted are just those between the counter before and after.
pub count_ids_counter : (k c : ℕ) → c + k < 4294967296 → (count_ids k c).1 ≡ c + k
unfolding count_ids
count_ids_counter zero c h = omega arith
count_ids_counter (suc k) c h =
    rw (add32_small c 1 (omega arith)) (omega (arith, count_ids_counter k (c + 1) (omega arith)))

pub occurrences-count_ids :
    (x k c : ℕ)
    → c + k < 4294967296
    → occurrences x (count_ids k c).0 ≡ (if leb c x && ltb x (c + k) then 1 else 0)
unfolding occurrences count_ids
occurrences-count_ids x zero c h = ground arith
occurrences-count_ids x (suc k) c h =
    rw (add32_small c 1 (omega arith), occurrences-count_ids x k (c + 1) (omega arith))
      (ground arith)

pub words-bytes :
    (k c : ℕ)
    → c + k < 4294967296
    → words (concat (map u32_bytes (count_ids k c).0)) ≡ (count_ids k c).0
unfolding words count_ids
words-bytes zero c h = refl
words-bytes (suc k) c h =
    rw
      (
        add32_small c 1 (omega arith),
        u32_of_bytes c (omega arith),
        words-bytes k (c + 1) (omega arith),
      )
      refl

occurrences-place :
    (x k : ℕ) (g : VariableGroup) (m : OrderedMap VariableGroup)
    → occurrences x (map (λ e. e.0) (place k g m))
      ≡ (if x == k then 1 else 0) + occurrences x (map (λ e. e.0) m)
unfolding occurrences place
occurrences-place x k g [] = refl
occurrences-place x k g ((j, h) ∷ m) = ground (arith, occurrences-place x k g m)

occurrences-insert :
    (x k : ℕ) (g : VariableGroup) (m : OrderedMap VariableGroup)
    → occurrences x (map (λ e. e.0) (insert k g m))
      ≤ (if x == k then 1 else 0) + occurrences x (map (λ e. e.0) m)
unfolding insert
occurrences-insert x k g m = ground (arith, occurrences-place x k g m)

-- What a round gives to a group of the node is taken from the ids that it may use.
begin_new_group-held :
    (x id : ℕ) (g : VariableGroup) (n : VariableGroupNode)
    → held x (begin_new_group id none g n) ≤ (if x == id then 1 else 0) + held x n
unfolding held begin_new_group
begin_new_group-held x id g n = omega (arith, occurrences-insert x id g n.variable_groups)

call_create_variable_group-held :
    (x : ℕ) (env : Environment) (name : Text) (id : ℕ) (params : List ℕ) (ticket : Option AckTicket)
    (n : VariableGroupNode)
    → held x (call_create_variable_group env name id params none ticket n).1
      ≤ (if x == id then 1 else 0) + held x n
unfolding call_create_variable_group
call_create_variable_group-held x env name id params ticket n =
    elim (Option-cases (env.user_variables name params)) [
      | inl missing ↦ rw (missing, call_create_variable_group) (omega arith)
      | inr (vs, found) ↦
          rw (found, call_create_variable_group)
            (begin_new_group-held x id (make_group env id none vs ticket) n)
    ]

send_create_variable_group-held :
    (x : ℕ) (env : Environment) (name : Text) (params : List ℕ) (id : ℕ) (n : VariableGroupNode)
    → held x (send_create_variable_group env name params id n).1 ≡ held x n
unfolding send_create_variable_group held
send_create_variable_group-held x env name params id n =
    elim (Option-cases (env.create_events.write_event name params id none)) [
      | inl missing ↦ rw (missing, send_create_variable_group) refl
      | inr (bytes, found) ↦ rw (found, send_create_variable_group) refl
    ]

-- The node after a round, whether or not the loop goes on.
resolve_group-node :
    (env : Environment) (id : ℕ) (pending : PendingGroup) (n : VariableGroupNode)
    → let name = func_name pending in
      let params = param_data_of pending in
      let (ticket, n', sent) = send_create_variable_group env name params id n in
      (resolve_group env id pending n).1
      ≡ (call_create_variable_group env name id params none ticket n').1
unfolding resolve_group
resolve_group-node env id pending n = ground arith

resolve_group-held :
    (x : ℕ) (env : Environment) (id : ℕ) (pending : PendingGroup) (n : VariableGroupNode)
    → held x (resolve_group env id pending n).1 ≤ (if x == id then 1 else 0) + held x n
resolve_group-held x env id pending n =
    let name = func_name pending in
    let params = param_data_of pending in
    let (ticket, n', sent) = send_create_variable_group env name params id n in
    rw (resolve_group-node env id pending n) (
      omega (
        arith,
        call_create_variable_group-held x env name id params ticket n',
        send_create_variable_group-held x env name params id n,
      ))

-- A round takes the id in front, and the rest of the loop follows if the round says so.
popped : List ℕ → List PendingGroup → VariableGroupNode → VariableGroupNode
popped ids later n = record n { unique_ids = ids; pending_groups = later }

popped-held :
    (x id : ℕ) (ids : List ℕ) (later : List PendingGroup) (n : VariableGroupNode)
    → n.unique_ids ≡ id ∷ ids
    → (if x == id then 1 else 0) + held x (popped ids later n) ≤ held x n
unfolding held occurrences popped
popped-held x id ids later n e = ground arith

resolve_loop-empty :
    (env : Environment) (p : PendingGroup) (later : List PendingGroup) (n : VariableGroupNode)
    → n.unique_ids ≡ []
    → (resolve_loop env (p ∷ later) n).0 ≡ n
unfolding resolve_loop
resolve_loop-empty env p later n e = ground arith

resolve_loop-round :
    (env : Environment) (p : PendingGroup) (later : List PendingGroup) (n : VariableGroupNode)
    {id : ℕ} {ids : List ℕ}
    → n.unique_ids ≡ id ∷ ids
    → let r = resolve_group env id p (popped ids later n) in
      (resolve_loop env (p ∷ later) n).0 ≡ (if r.0 then (resolve_loop env later r.1).0 else r.1)
unfolding resolve_loop popped
resolve_loop-round env p later n e = ground arith

List-cases : (xs : List ℕ) → (xs ≡ []) ⊎ ((x : ℕ) × (ys : List ℕ) × (xs ≡ x ∷ ys))
List-cases [] = inl refl
List-cases (x ∷ ys) = inr (x, ys, refl)

if-le : (b : Bool) (k l m : ℕ) → k ≤ m → l ≤ m → (if b then k else l) ≤ m
if-le true k l m p q = p
if-le false k l m p q = q

held-if :
    (x : ℕ) (b : Bool) (n m : VariableGroupNode)
    → held x (if b then n else m) ≡ (if b then held x n else held x m)
held-if x true n m = refl
held-if x false n m = refl

-- The loop takes ids from the front, and gives each to at most one group.
resolve_loop-held :
    (x : ℕ) (env : Environment) (pending : List PendingGroup) (n : VariableGroupNode)
    → held x (resolve_loop env pending n).0 ≤ held x n
resolve_loop-held x env [] n = unfold resolve_loop in omega arith
resolve_loop-held x env (p ∷ later) n = elim (List-cases n.unique_ids) [
  | inl e ↦ rw (resolve_loop-empty env p later n e) (omega arith)
  | inr (id, ids, e) ↦
      let r = resolve_group env id p (popped ids later n) in
      let round = resolve_group-held x env id p (popped ids later n) in
      let less = popped-held x id ids later n e in
      rw (resolve_loop-round env p later n e, held-if x r.0 (resolve_loop env later r.1).0 r.1)
        (if-le r.0 _ _ _ (omega (arith, resolve_loop-held x env later r.1, round, less))
          (omega (arith, round, less)))
]

take_own_ids_other : (n : VariableGroupNode) → n.is_network_id_provider ≡ false → take_own_ids n ≡ n
unfolding take_own_ids
take_own_ids_other n h = ground arith

-- A node that is no provider has no more ids after it resolved its groups; a provider has those more
-- that it counted.
pub resolve_pending_groups-held :
    (x : ℕ) (env : Environment) (n : VariableGroupNode)
    → n.is_network_id_provider ≡ false
    → held x (resolve_pending_groups env n).0 ≤ held x n
unfolding resolve_pending_groups
resolve_pending_groups-held x env n h = omega (
  arith,
  resolve_loop-held x env n.pending_groups (take_own_ids n),
  ap (held x) (take_own_ids_other n h),
)

take_own_ids-held :
    (x : ℕ) (n : VariableGroupNode)
    → n.unique_id_counter + length n.pending_groups < 4294967296
    → held x (take_own_ids n)
      ≤ (if leb n.unique_id_counter x && ltb x (n.unique_id_counter + length n.pending_groups)
          then 1
          else 0)
        + held x n
unfolding take_own_ids held
take_own_ids-held x n h = ground (
  arith,
  occurrences-append x n.unique_ids (count_ids (length n.pending_groups) n.unique_id_counter).0,
  occurrences-count_ids x (length n.pending_groups) n.unique_id_counter h,
)

pub resolve_pending_groups-own :
    (x : ℕ) (env : Environment) (n : VariableGroupNode)
    → n.unique_id_counter + length n.pending_groups < 4294967296
    → held x (resolve_pending_groups env n).0
      ≤ (if leb n.unique_id_counter x && ltb x (n.unique_id_counter + length n.pending_groups)
          then 1
          else 0)
        + held x n
unfolding resolve_pending_groups
resolve_pending_groups-own x env n h =
    omega
      (arith, resolve_loop-held x env n.pending_groups (take_own_ids n), take_own_ids-held x n h)

resolve_group-counter :
    (env : Environment) (id : ℕ) (p : PendingGroup) (n : VariableGroupNode)
    → (resolve_group env id p n).1.unique_id_counter ≡ n.unique_id_counter
unfolding resolve_group send_create_variable_group call_create_variable_group begin_new_group
resolve_group-counter env id p n = ground arith

if-counter :
    (b : Bool) (n m : VariableGroupNode) (c : ℕ)
    → n.unique_id_counter ≡ c
    → m.unique_id_counter ≡ c
    → (if b then n else m).unique_id_counter ≡ c
if-counter true n m c p q = p
if-counter false n m c p q = q

pub resolve_loop-counter :
    (env : Environment) (pending : List PendingGroup) (n : VariableGroupNode)
    → (resolve_loop env pending n).0.unique_id_counter ≡ n.unique_id_counter
resolve_loop-counter env [] n = unfold resolve_loop in refl
resolve_loop-counter env (p ∷ later) n = elim (List-cases n.unique_ids) [
  | inl e ↦ ap (λ m. m.unique_id_counter) (resolve_loop-empty env p later n e)
  | inr (id, ids, e) ↦
      let r = resolve_group env id p (popped ids later n) in
      let round = resolve_group-counter env id p (popped ids later n) in
      ap (λ m. m.unique_id_counter) (resolve_loop-round env p later n e)
      ∙ if-counter r.0 (resolve_loop env later r.1).0 r.1 n.unique_id_counter
          (resolve_loop-counter env later r.1 ∙ (round ∙ unfold popped in refl))
          (round ∙ unfold popped in refl)
]
