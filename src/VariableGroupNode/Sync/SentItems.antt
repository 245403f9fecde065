-- ===== src/VariableGroupNode/Sync/SentItems.antt =====
-- The items of a group: what the loop of RUDPLink::dispatchReliableNewestQueue
-- (GameConn/RUDPLink.cpp) writes, and how the variables of the receiver read it.
use anger.Common.{
  ℕ, zero, suc, ◌+◌, ◌*◌, ◌≡◌, ◌<◌, ◌≤◌, refl, ap, Bool, true, false, List, [], ◌∷◌, ◌++◌, none,
  some, arith, length, Bool-cases, inl, inr, sym, ◌∙◌,
}
use mathlib.Core.List.{append_assoc}
use anger.Link.State.{ReliableNewestItem}
use anger.Link.Dispatch.{Items, write_items, add_item}
use anger.VariableGroup.{NetVariable, PostUpdate, read_variables}
use anger.VariableGroupNode.Sync.Variables.{
  AreMatched, is_sent, sent_bytes, took, received, read_variable-sent, read_variables-skip,
  read_variables-take, read_variables-none, received_nil, sent_bytes_nil,
}

-- Two to the number of items.
abbrev pub two_to : ℕ → ℕ
two_to zero = 1
two_to (suc n) = two_to n + two_to n

-- The bits and the bytes of the items are read back.
pub record WellRead (bit : ℕ) (items : List ReliableNewestItem) (vs : List NetVariable) (bits : ℕ)
    (bytes : List ℕ) : Type 0 where
  pub word : ℕ
  pub bits_of_word : bits ≡ bit * word
  pub small : word < two_to (length items)
  pub reads :
      (rest : List ℕ)
      → (updates : List PostUpdate) × (read_variables word (bytes ++ rest) vs
          ≡ (received items vs, some rest, updates))

write_items-skip :
    (size bit : ℕ) (i : ReliableNewestItem) (items : List ReliableNewestItem)
    → is_sent i ≡ false
    → write_items size bit (i ∷ items) ≡ write_items size (bit * 2) items
unfolding write_items
write_items-skip size bit i items h = rw (h, write_items) refl

add_item-some :
    (bit : ℕ) (xs : List ℕ) (r : Items) {b : ℕ} {bytes : List ℕ} {any : Bool}
    → add_item bit xs r ≡ some (b, bytes, any)
    → (b' : ℕ) × (bytes' : List ℕ) × (any' : Bool) × (r ≡ some (b', bytes', any'))
      × (b ≡ bit + b')
      × (bytes ≡ xs ++ bytes')
unfolding add_item
add_item-some bit xs none h = cc
add_item-some bit xs (some (b', bytes', any')) h = (b', bytes', any', refl, cc, cc)

write_items-sent :
    (size bit : ℕ) (i : ReliableNewestItem) (items : List ReliableNewestItem) {b : ℕ}
    {bytes : List ℕ} {any : Bool}
    → is_sent i ≡ true
    → write_items size bit (i ∷ items) ≡ some (b, bytes, any)
    → (b' : ℕ) × (bytes' : List ℕ) × (any' : Bool) × (write_items
          (size + i.data_len)
          (bit * 2)
          items
        ≡ some (b', bytes', any'))
      × (b ≡ bit + b')
      × (bytes ≡ sent_bytes i ++ bytes')
unfolding write_items
write_items-sent size bit i items {b} {bytes} {any} h k =
    add_item-some bit (sent_bytes i) (write_items (size + i.data_len) (bit * 2) items) {any = any}
      fits
  where
    fits :
        add_item bit (sent_bytes i) (write_items (size + i.data_len) (bit * 2) items)
        ≡ some (b, bytes, any)
    fits = ground arith

word_double : (bit w : ℕ) → bit * 2 * w ≡ bit * (w + w)
word_double bit w = grind arith

word_odd : (bit w : ℕ) → bit + bit * (w + w) ≡ bit * (1 + (w + w))
word_odd bit w = grind arith

-- No item.
WellRead-nil : (bit : ℕ) (vs : List NetVariable) → WellRead bit [] vs 0 []
unfolding received
WellRead-nil bit vs = record {
  word = 0;
  bits_of_word = omega arith;
  small = omega arith;
  reads = λ rest. ([], read_variables-none rest vs);
}

module _ (bit : ℕ) (i : ReliableNewestItem) (items : List ReliableNewestItem) (b : ℕ)
    (bytes : List ℕ) where
  -- An item that is not sent, for a variable and behind the last variable.
  WellRead-skip :
      (v : NetVariable) (vs : List NetVariable)
      → is_sent i ≡ false
      → WellRead (bit * 2) items vs b bytes
      → WellRead bit (i ∷ items) (v ∷ vs) b bytes
  unfolding received
  WellRead-skip v vs not_sent r = record {
    word = r.word + r.word;
    bits_of_word = r.bits_of_word ∙ word_double bit r.word;
    small = omega (arith, r.small);
    reads = λ rest.
        let (updates, e) = r.reads rest in
        (
          updates,
          rw not_sent (read_variables-skip r.word (bytes ++ rest) v vs (received items vs) e),
        );
  }

  WellRead-skip_empty : WellRead (bit * 2) items [] b bytes → WellRead bit (i ∷ items) [] b bytes
  unfolding received read_variables
  WellRead-skip_empty r = record {
    word = r.word + r.word;
    bits_of_word = r.bits_of_word ∙ word_double bit r.word;
    small = omega (arith, r.small);
    reads = λ rest.
        let (updates, e) = r.reads rest in
        (updates, e ∙ ap (λ us. (us, some rest, updates)) (received_nil items));
  }

  -- An item that is sent.
  WellRead-sent :
      (v : NetVariable) (vs : List NetVariable)
      → is_sent i ≡ true
      → i.data_len ≡ v.length_of_data
      → i.data_len ≤ length i.buffer
      → WellRead (bit * 2) items vs b bytes
      → WellRead bit (i ∷ items) (v ∷ vs) (bit + b) (sent_bytes i ++ bytes)
  unfolding received
  WellRead-sent v vs sent same fits r = record {
    word = 1 + (r.word + r.word);
    bits_of_word = ap (bit +◌) (r.bits_of_word ∙ word_double bit r.word) ∙ word_odd bit r.word;
    small = omega (arith, r.small);
    reads = λ rest.
        let (now, q) = read_variable-sent i v (bytes ++ rest) same fits in
        let (updates, e) = r.reads rest in
        (
          now ++ updates,
          rw (append_assoc (sent_bytes i) bytes rest, sent)
              (read_variables-take r.word _ (bytes ++ rest) v (took i v) vs (received items vs) q
                e),
        );
  }

  WellRead-sent_empty :
      i.data_len ≡ 0
      → WellRead (bit * 2) items [] b bytes
      → WellRead bit (i ∷ items) [] (bit + b) (sent_bytes i ++ bytes)
  unfolding received read_variables
  WellRead-sent_empty z r = record {
    word = 1 + (r.word + r.word);
    bits_of_word = ap (bit +◌) (r.bits_of_word ∙ word_double bit r.word) ∙ word_odd bit r.word;
    small = omega (arith, r.small);
    reads = λ rest.
        let (updates, e) = r.reads rest in
        (
          updates,
          rw (sent_bytes_nil i z) (e ∙ ap (λ us. (us, some rest, updates)) (received_nil items)),
        );
  }

write_items-nil :
    (size bit : ℕ) {b : ℕ} {bytes : List ℕ} {any : Bool}
    → write_items size bit [] ≡ some (b, bytes, any)
    → (b ≡ 0) × (bytes ≡ [])
unfolding write_items
write_items-nil size bit h = (cc, cc)

pub write_items-WellRead :
    (size bit : ℕ) (items : List ReliableNewestItem) (vs : List NetVariable) {b : ℕ}
    {bytes : List ℕ} {any : Bool}
    → AreMatched items vs
    → write_items size bit items ≡ some (b, bytes, any)
    → WellRead bit items vs b bytes
write_items-WellRead size bit [] vs {b} {bytes} m h =
    let (eb, ey) = write_items-nil size bit h in rw (eb, ey) (WellRead-nil bit vs)
write_items-WellRead size bit (i ∷ items) [] {b} {bytes} (z, m) h = elim (Bool-cases (is_sent i)) [
  | inr not_sent ↦ WellRead-skip_empty bit i items b bytes (
      write_items-WellRead size (bit * 2) items [] m
        (sym (write_items-skip size bit i items not_sent) ∙ h))
  | inl sent ↦
      let (b', bytes', any', k, eb, ey) = write_items-sent size bit i items sent h in
      rw (eb, ey)
        (WellRead-sent_empty bit i items b' bytes' z
          (write_items-WellRead (size + i.data_len) (bit * 2) items [] m k))
]
write_items-WellRead size bit (i ∷ items) (v ∷ vs) {b} {bytes} (same, fits, m) h =
    elim (Bool-cases (is_sent i)) [
      | inr not_sent ↦ WellRead-skip bit i items b bytes v vs not_sent (
          write_items-WellRead size (bit * 2) items vs m
            (sym (write_items-skip size bit i items not_sent) ∙ h))
      | inl sent ↦
          let (b', bytes', any', k, eb, ey) = write_items-sent size bit i items sent h in
          rw (eb, ey)
            (WellRead-sent bit i items b' bytes' v vs sent same fits
              (write_items-WellRead (size + i.data_len) (bit * 2) items vs m k))
    ]
