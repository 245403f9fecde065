-- ===== src/BinSerializer/Scalars.antt =====
-- Numbers of 8, 16 and 32 bits written one after the other to a buffer, and read back
-- (BinSerializer::write8 to read32).
use anger.Common.{
  ℕ, zero, ◌+◌, ◌-◌, ◌<◌, ◌≤◌, ◌≡◌, refl, ap, ◌∙◌, Bool, true, false, List, [], ◌∷◌, Option, none,
  some, length, get_or, get_or-inside, arith, map,
}
use anger.Common.Word.{u32_mod}
use anger.Common.Memory.{Memory, u32_bytes, u32_at, u32_of_bytes}
use anger.Util.{htonl, htons}
use anger.Util.ByteOrder.{htonl-htonl, htons-htons, htonl-lt, htons-lt}
use anger.BinSerializer.{
  Serializer, store, u16_at, u16_bytes, read8, read16, read32, grow_to, put, write8, write16,
  write32,
}

pub data Width : Type 0 where
  w8 w16 w32 : Width

abbrev pub Item : Type 0
Item = Width × ℕ

-- The number of bytes of a width, and one more than the largest number of it.
abbrev pub size : Width → ℕ
size Width.w8 = 1
size Width.w16 = 2
size Width.w32 = 4

abbrev pub limit : Width → ℕ
limit Width.w8 = 256
limit Width.w16 = 65536
limit Width.w32 = u32_mod

unfoldable pub total : List Item → ℕ
total [] = 0
total ((w, v) ∷ items) = size w + total items

unfoldable pub AllFit : List Item → Type 0
AllFit [] = zero ≡ zero
AllFit ((w, v) ∷ items) = (v < limit w) × AllFit items

bytes_of : Width → ℕ → List ℕ
unfolding htons htonl
bytes_of Width.w8 v = v ∷ []
bytes_of Width.w16 v = u16_bytes (htons v)
bytes_of Width.w32 v = u32_bytes (htonl v)

length-bytes_of : (w : Width) (v : ℕ) → length (bytes_of w v) ≡ size w
unfolding bytes_of
length-bytes_of Width.w8 v = refl
length-bytes_of Width.w16 v = refl
length-bytes_of Width.w32 v = refl

unfoldable pub read_one : Width → Serializer → Option (ℕ × Serializer)
read_one Width.w8 b = read8 b
read_one Width.w16 b = read16 b
read_one Width.w32 b = read32 b

cons_value : ℕ → Option (List ℕ × Serializer) → Option (List ℕ × Serializer)
cons_value v none = none
cons_value v (some (vs, b)) = some (v ∷ vs, b)

-- Reads of these widths, one after the other.
unfoldable pub read_all : List Width → Serializer → Option (List ℕ × Serializer)
unfolding read_one cons_value
read_all [] b = some ([], b)
read_all (w ∷ ws) b = elim (read_one w b) [
  | none ↦ none
  | some (v, b') ↦ cons_value v (read_all ws b')
]

-- A serializer after bytes were put at its end.
abbrev pub after : List ℕ → Serializer → Serializer
after bytes b = record b {
  data_ptr = store b.data_ptr b.write_pos bytes;
  write_pos = b.write_pos + length bytes;
}

wrote : List Item → Serializer → Serializer
unfolding bytes_of
wrote [] b = b
wrote ((w, v) ∷ items) b = wrote items (after (bytes_of w v) b)

pub store_below :
    (m : Memory) (off : ℕ) (bytes : List ℕ) (i : ℕ) → i < off → store m off bytes i ≡ m i
unfolding store
store_below m off bytes i h = ground arith

wrote_below :
    (items : List Item) (b : Serializer) (i : ℕ)
    → i < b.write_pos
    → (wrote items b).data_ptr i ≡ b.data_ptr i
unfolding wrote
wrote_below [] b i h = refl
wrote_below ((w, v) ∷ items) b i h =
    wrote_below items (after (bytes_of w v) b) i (omega arith)
    ∙ store_below b.data_ptr b.write_pos (bytes_of w v) i h

wrote_pos :
    (items : List Item) (b : Serializer) → (wrote items b).write_pos ≡ b.write_pos + total items
unfolding wrote total
wrote_pos [] b = omega arith
wrote_pos ((w, v) ∷ items) b =
    omega (arith, wrote_pos items (after (bytes_of w v) b), length-bytes_of w v)

-- What is found at the offset where bytes were put.
read_one-wrote :
    (w : Width) (v : ℕ) (r : Serializer)
    → v < limit w
    → ((i : ℕ) → i < size w → r.data_ptr (r.read_pos + i) ≡ get_or (bytes_of w v) i 0)
    → r.read_pos + size w ≤ r.write_pos
    → read_one w r ≡ some (v, record r { read_pos = r.read_pos + size w })
unfolding read_one bytes_of read8 read16 read32 u16_at u32_at
read_one-wrote Width.w8 v r h at_pos l = ground (arith, at_pos 0)
read_one-wrote Width.w16 v r h at_pos l =
    ground (arith, at_pos 0, at_pos 1, htons-htons v h, htons-lt v h)
read_one-wrote Width.w32 v r h at_pos l = ground (
  arith,
  at_pos 0,
  at_pos 1,
  at_pos 2,
  at_pos 3,
  htonl-htonl v h,
  u32_of_bytes (htonl v) (htonl-lt v h),
)

pub stored_at :
    (m : Memory) (off : ℕ) (bytes : List ℕ) (i : ℕ)
    → i < length bytes
    → store m off bytes (off + i) ≡ get_or bytes i 0
unfolding store
stored_at m off bytes i h =
    ground
      (arith, get_or-inside bytes i (m (off + i)) 0 h, ap (λ k. get_or bytes k (m (off + i))) back)
  where
    back : off + i - off ≡ i
    back = omega arith

-- What is read from a serializer that holds what was written.
read_all-wrote :
    (items : List Item) (b r : Serializer)
    → AllFit items
    → ((i : ℕ) → r.data_ptr i ≡ (wrote items b).data_ptr i)
    → r.read_pos ≡ b.write_pos
    → r.write_pos ≡ b.write_pos + total items
    → read_all (map (λ x. x.0) items) r
      ≡ some (map (λ x. x.1) items, record r { read_pos = r.write_pos })
unfolding read_all total AllFit wrote
read_all-wrote [] b r fit same start end = ground (arith, start, end)
read_all-wrote ((w, v) ∷ items) b r fit same start end =
    rw (read_one-wrote w v r fit.0 here (omega arith), read_all)
      (rw
        (read_all-wrote items (after (bytes_of w v) b) (record r { read_pos = r.read_pos + size w })
          fit.1 same (omega (arith, length-bytes_of w v)) (omega (arith, length-bytes_of w v)))
        refl)
  where
    here : (i : ℕ) → i < size w → r.data_ptr (r.read_pos + i) ≡ get_or (bytes_of w v) i 0
    here i l =
        same (r.read_pos + i)
        ∙ wrote_below items (after (bytes_of w v) b) (r.read_pos + i)
            (omega (arith, length-bytes_of w v))
        ∙ ap (λ k. store b.data_ptr b.write_pos (bytes_of w v) (k + i)) start
        ∙ stored_at b.data_ptr b.write_pos (bytes_of w v) i (omega (arith, length-bytes_of w v))

module _ (scaled : ℕ → ℕ) (fresh : Memory) where
  unfoldable pub write_one : Item → Serializer → Option (Bool × Serializer)
  write_one (Width.w8, v) b = write8 scaled fresh v b
  write_one (Width.w16, v) b = write16 scaled fresh v b
  write_one (Width.w32, v) b = write32 scaled fresh v b

  -- Writes of these numbers, up to the first that is refused.
  unfoldable pub write_all : List Item → Serializer → Option (Bool × Serializer)
  unfolding write_one
  write_all [] b = some (true, b)
  write_all (x ∷ items) b = elim (write_one x b) [
    | none ↦ none
    | some (false, b') ↦ some (false, b')
    | some (true, b') ↦ write_all items b'
  ]

  pub put-after :
      (bytes : List ℕ) (b : Serializer)
      → b.owns ≡ false
      → b.write_pos + length bytes ≤ b.max_size
      → put scaled fresh bytes b ≡ some (true, after bytes b)
  unfolding put grow_to
  put-after bytes b o h = ground arith

  write_one-after :
      (w : Width) (v : ℕ) (b : Serializer)
      → b.owns ≡ false
      → b.write_pos + size w ≤ b.max_size
      → write_one (w, v) b ≡ some (true, after (bytes_of w v) b)
  unfolding write_one write8 write16 write32 bytes_of
  write_one-after Width.w8 v b o h = put-after (v ∷ []) b o h
  write_one-after Width.w16 v b o h = put-after (u16_bytes (htons v)) b o h
  write_one-after Width.w32 v b o h = put-after (u32_bytes (htonl v)) b o h

  write_all-wrote :
      (items : List Item) (b : Serializer)
      → b.owns ≡ false
      → b.write_pos + total items ≤ b.max_size
      → write_all items b ≡ some (true, wrote items b)
  unfolding write_all wrote total
  write_all-wrote [] b o h = refl
  write_all-wrote ((w, v) ∷ items) b o h =
      rw (write_one-after w v b o (omega arith), write_all)
        (write_all-wrote items (after (bytes_of w v) b) o (omega (arith, length-bytes_of w v)))

  -- Numbers that fit the rest of a buffer that the serializer does not own are all written, and reads
  -- of the same widths, from where they were written, give the same numbers and end where they end.
  pub write_all-read_all :
      (items : List Item) (b : Serializer)
      → b.owns ≡ false
      → AllFit items
      → b.write_pos + total items ≤ b.max_size
      → (b' : Serializer) × (write_all items b ≡ some (true, b'))
        × (b'.write_pos ≡ b.write_pos + total items)
        × (read_all (map (λ x. x.0) items) (record b' { read_pos = b.write_pos })
            ≡ some (map (λ x. x.1) items, record b' { read_pos = b'.write_pos }))
  write_all-read_all items b o fit h = (
    wrote items b,
    write_all-wrote items b o h,
    wrote_pos items b,
    read_all-wrote items b (record (wrote items b) { read_pos = b.write_pos }) fit (λ i. refl) refl
        (wrote_pos items b),
  )
