-- ===== src/VariableGroupNode/Sync/Variables.antt =====
-- The variables of a group that the bytes of an update are read into: VariableGroup::read and
-- NetVariable::read (GameConn/VariableGroup.cpp, NetVariable.cpp).
use anger.Common.{
  ℕ, ◌+◌, ◌/◌, ◌%◌, ◌≡◌, ◌≤◌, refl, ap, Bool, true, false, not, List, [], ◌∷◌, ◌++◌, Option, some,
  arith, length, take, drop, length-take, length-append, drop-append, ltb, if◌then◌else◌, ◌==◌,
  ◌&&◌,
}
use anger.Util.{same_text}
use anger.Sequence.{is_sequence_newer}
use anger.Link.State.{ReliableNewestItem}
use anger.VariableGroup.{NetVariable, PostUpdate, read_variable, read_variables}

-- The items of the sender hold the variables of the receiver, in their order; an item behind the last
-- variable is empty.
abbrev pub AreMatched : List ReliableNewestItem → List NetVariable → Type 0
AreMatched [] vs = Unit {0}
AreMatched (i ∷ items) [] = (i.data_len ≡ 0) × AreMatched items []
AreMatched (i ∷ items) (v ∷ vs) =
    (i.data_len ≡ v.length_of_data) × (i.data_len ≤ length i.buffer) × AreMatched items vs

-- An item that is sent.
abbrev pub is_sent : ReliableNewestItem → Bool
is_sent i = is_sequence_newer i.local_revision i.remote_revision

-- The bytes of an item, and a variable that took them.
abbrev pub sent_bytes : ReliableNewestItem → List ℕ
sent_bytes i = take i.data_len i.buffer

unfoldable pub took : ReliableNewestItem → NetVariable → NetVariable
took i v = record v {
  data_bytes = sent_bytes i;
  prev_data = if v.has_callback then v.data_bytes else v.prev_data;
}

-- The variables of the receiver: those whose items are sent have the bytes of the sender.
unfoldable pub received : List ReliableNewestItem → List NetVariable → List NetVariable
received [] vs = vs
received (i ∷ items) [] = []
received (i ∷ items) (v ∷ vs) = (if is_sent i then took i v else v) ∷ received items vs

pub take-append-length : (xs ys : List ℕ) → take (length xs) (xs ++ ys) ≡ xs
take-append-length [] ys = refl
take-append-length (x ∷ xs) ys = ap (◌∷◌ x) (take-append-length xs ys)

pub drop-append-length : (xs ys : List ℕ) (n : ℕ) → n ≡ length xs → drop n (xs ++ ys) ≡ ys
drop-append-length xs ys n e = rw e (drop-append xs ys)

pub take-append-exact : (xs ys : List ℕ) (n : ℕ) → n ≡ length xs → take n (xs ++ ys) ≡ xs
take-append-exact xs ys n e = rw e (take-append-length xs ys)

-- A variable takes as many bytes as it has.
pub read_variable-exact :
    (xs rest : List ℕ) (v : NetVariable)
    → v.length_of_data ≡ length xs
    → (updates : List PostUpdate) × (read_variable (xs ++ rest) v
        ≡ some (
          rest,
          record v {
            data_bytes = xs;
            prev_data = if v.has_callback then v.data_bytes else v.prev_data;
          },
          updates,
        ))
unfolding read_variable
read_variable-exact xs rest v e =
    let prev = if v.has_callback then v.data_bytes else v.prev_data in
    (
      (if v.has_callback && not (same_text xs prev) then (prev, xs) ∷ [] else []),
      simp (
        enough,
        take-append-exact xs rest v.length_of_data e,
        drop-append-length xs rest v.length_of_data e,
        read_variable,
      ),
    )
  where
    enough : ltb (length (xs ++ rest)) v.length_of_data ≡ false
    enough = ground (arith, length-append xs rest)

pub read_variable-sent :
    (i : ReliableNewestItem) (v : NetVariable) (rest : List ℕ)
    → i.data_len ≡ v.length_of_data
    → i.data_len ≤ length i.buffer
    → (updates : List PostUpdate) × (read_variable (sent_bytes i ++ rest) v
        ≡ some (rest, took i v, updates))
unfolding took
read_variable-sent i v rest same fits =
    read_variable-exact (sent_bytes i) rest v (omega (arith, same, length-take i.data_len i.buffer))

pub even : (w : ℕ) → ((w + w) % 2 == 1) ≡ false
even w = ground (arith, parity w)
  where
    parity : (w : ℕ) → (w + w) % 2 ≡ 0
    parity w = omega arith

pub odd : (w : ℕ) → ((1 + (w + w)) % 2 == 1) ≡ true
odd w = ground (arith, parity w)
  where
    parity : (w : ℕ) → (1 + (w + w)) % 2 ≡ 1
    parity w = omega arith

pub half_even : (w : ℕ) → (w + w) / 2 ≡ w
half_even w = omega arith

pub half_odd : (w : ℕ) → (1 + (w + w)) / 2 ≡ w
half_odd w = omega arith

pub read_variables-skip :
    (w : ℕ) (xs : List ℕ) (v : NetVariable) (vs us : List NetVariable) {left : Option (List ℕ)}
    {updates : List PostUpdate}
    → read_variables w xs vs ≡ (us, left, updates)
    → read_variables (w + w) xs (v ∷ vs) ≡ (v ∷ us, left, updates)
unfolding read_variables
read_variables-skip w xs v vs us h = rw (even w, half_even w, h, read_variables) refl

pub read_variables-take :
    (w : ℕ) (xs xs' : List ℕ) (v v' : NetVariable) (vs us : List NetVariable)
    {left : Option (List ℕ)} {now updates : List PostUpdate}
    → read_variable xs v ≡ some (xs', v', now)
    → read_variables w xs' vs ≡ (us, left, updates)
    → read_variables (1 + (w + w)) xs (v ∷ vs) ≡ (v' ∷ us, left, now ++ updates)
unfolding read_variables
read_variables-take w xs xs' v v' vs us h k = rw (odd w, h, half_odd w, k, read_variables) refl

pub read_variables-none :
    (xs : List ℕ) (vs : List NetVariable) → read_variables 0 xs vs ≡ (vs, some xs, [])
unfolding read_variables
read_variables-none xs [] = refl
read_variables-none xs (v ∷ vs) = rw (read_variables-none xs vs) refl

pub received_nil : (items : List ReliableNewestItem) → received items [] ≡ []
unfolding received
received_nil [] = refl
received_nil (i ∷ items) = refl

pub sent_bytes_nil : (i : ReliableNewestItem) → i.data_len ≡ 0 → sent_bytes i ≡ []
sent_bytes_nil i z = ap (λ k. take k i.buffer) z
