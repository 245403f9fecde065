-- ===== src/BinSerializer/Texts.antt =====
-- Strings in a BinSerializer: write(const std::string&) and read(std::string&).
use anger.Common.{
  ℕ, zero, suc, ◌+◌, ◌-◌, ◌/◌, ◌%◌, ◌<◌, ◌≤◌, ◌≡◌, refl, sym, ap, ◌∙◌, inl, inr, true, false, List,
  [], ◌∷◌, some, length, get_or, take, arith, Bool-cases, ltb,
}
use anger.Common.Memory.{Memory, slice}
use anger.Util.{htons}
use anger.Util.ByteOrder.{htons-htons, htons-lt}
use anger.BinSerializer.{
  Serializer, u16_at, u16_bytes, read16, read_text, grow_to, write16, copy_in, move_write,
  set_write, write_bytes, write_text,
}
use anger.BinSerializer.Scalars.{after, put-after, store_below, stored_at}

slice_held :
    (xs : List ℕ) (m : Memory) (off : ℕ)
    → ((i : ℕ) → i < length xs → m (off + i) ≡ get_or xs i 0)
    → slice m off (length xs) ≡ xs
unfolding slice
slice_held [] m off h = refl
slice_held (x ∷ xs) m off h =
    rw
      (slice_held xs m (off + 1)
        (λ i l. ap m {y = off + suc i} (omega arith) ∙ h (suc i) (omega arith)))
      (ap (λ y. y ∷ xs) (ap m {x = off} {y = off + 0} (omega arith) ∙ h 0 (omega arith)))

get_or-take : (xs : List ℕ) (k i : ℕ) → i < k → get_or (take k xs) i 0 ≡ get_or xs i 0
get_or-take [] zero i h = refl
get_or-take [] (suc k) i h = refl
get_or-take (x ∷ xs) zero i h = absurd (omega arith)
get_or-take (x ∷ xs) (suc k) zero h = refl
get_or-take (x ∷ xs) (suc k) (suc i) h = get_or-take xs k i (omega arith)

length_shorter : (xs : List ℕ) (k : ℕ) → k ≤ length xs → length (take k xs) ≡ k
length_shorter [] zero h = refl
length_shorter [] (suc k) h = absurd (omega arith)
length_shorter (x ∷ xs) zero h = refl
length_shorter (x ∷ xs) (suc k) h = omega (arith, length_shorter xs k (omega arith))

-- The length of a text as it is stored.
abbrev size_bytes : ℕ → List ℕ
size_bytes n = u16_bytes (htons n)

-- A serializer after a text was written: its length is there twice.
abbrev after_text : List ℕ → Serializer → Serializer
after_text text b =
    after text (after (size_bytes (length text)) (after (size_bytes (length text)) b))

-- What read_text gives of a text of at least two characters.
abbrev pub misread : List ℕ → List ℕ
misread text = length text / 256 ∷ length text % 256 ∷ take (length text - 2) text

size_cells :
    (n : ℕ)
    → n < 65536
    → (get_or (size_bytes n) 0 0 ≡ n / 256) × (get_or (size_bytes n) 1 0 ≡ n % 256)
unfolding htons
size_cells n h = (omega arith, omega arith)

short : (text : List ℕ) → length (take (length text - 2) text) ≡ length text - 2
short text = length_shorter text (length text - 2) (omega arith)

cells :
    (text : List ℕ) (b : Serializer) (i : ℕ)
    → length text < 65536
    → i < length (misread text)
    → (after_text text b).data_ptr (b.write_pos + 2 + i) ≡ get_or (misread text) i 0
cells text b i big h = elim (Bool-cases (ltb i 2)) [
  | inl low ↦
      store_below (after (size_bytes n) (after (size_bytes n) b)).data_ptr (b.write_pos + 2 + 2)
        text (b.write_pos + 2 + i) (ground arith)
      ∙ stored_at (after (size_bytes n) b).data_ptr (b.write_pos + 2) (size_bytes n) i
          (ground arith)
      ∙ length_bytes i low
  | inr high ↦
      ap (after_text text b).data_ptr {y = b.write_pos + 2 + 2 + (i - 2)} (ground arith)
      ∙ stored_at (after (size_bytes n) (after (size_bytes n) b)).data_ptr (b.write_pos + 2 + 2)
          text (i - 2) (inside high)
      ∙ rest i high h
]
  where
    n : ℕ
    n = length text

    inside : ltb i 2 ≡ false → i - 2 < length text
    inside high = ground (arith, short text)

    length_bytes : (i : ℕ) → ltb i 2 ≡ true → get_or (size_bytes n) i 0 ≡ get_or (misread text) i 0
    length_bytes zero l = (size_cells n big).0
    length_bytes (suc zero) l = (size_cells n big).1
    length_bytes (suc (suc i)) l = absurd (ground arith)

    rest :
        (i : ℕ)
        → ltb i 2 ≡ false
        → i < length (misread text)
        → get_or text (i - 2) 0 ≡ get_or (misread text) i 0
    rest zero l k = absurd (ground arith)
    rest (suc zero) l k = absurd (ground arith)
    rest (suc (suc i)) l k =
        ap (λ j. get_or text j 0) {y = i} (omega arith)
        ∙ sym (get_or-take text (n - 2) i (omega (arith, short text)))

first_cells :
    (text : List ℕ) (b : Serializer) (i : ℕ)
    → i < 2
    → (after_text text b).data_ptr (b.write_pos + i) ≡ get_or (size_bytes (length text)) i 0
first_cells text b i h =
    store_below (after (size_bytes (length text)) (after (size_bytes (length text)) b)).data_ptr
      (b.write_pos + 2 + 2) text (b.write_pos + i) (omega arith)
    ∙ store_below (after (size_bytes (length text)) b).data_ptr (b.write_pos + 2)
        (size_bytes (length text)) (b.write_pos + i) (omega arith)
    ∙ stored_at b.data_ptr b.write_pos (size_bytes (length text)) i h

length_read :
    (text : List ℕ) (b : Serializer)
    → length text < 65536
    → read16 (record (after_text text b) { read_pos = b.write_pos })
      ≡ some (length text, record (after_text text b) { read_pos = b.write_pos + 2 })
unfolding read16 u16_at
length_read text b big = ground (
  arith,
  first_cells text b 0,
  first_cells text b 1,
  htons-htons (length text) big,
  htons-lt (length text) big,
)

module _ (scaled : ℕ → ℕ) (fresh : Memory) where
  write16-after :
      (v : ℕ) (b : Serializer)
      → b.owns ≡ false
      → b.write_pos + 2 ≤ b.max_size
      → write16 scaled fresh v b ≡ some (true, after (u16_bytes (htons v)) b)
  unfolding write16
  write16-after v b o h = put-after scaled fresh (u16_bytes (htons v)) b o h

  grow_to_kept : (n : ℕ) (b : Serializer) → b.owns ≡ false → grow_to scaled fresh n b ≡ some b
  unfolding grow_to
  grow_to_kept n b o = ground arith

  copy_in-after :
      (bytes : List ℕ) (b : Serializer)
      → length bytes + length bytes ≤ b.max_size
      → b.write_pos + length bytes ≤ b.max_size
      → copy_in scaled fresh bytes b ≡ some (true, after bytes b)
  unfolding copy_in move_write set_write
  copy_in-after bytes b twice h = ground arith

  write_bytes-after :
      (bytes : List ℕ) (b : Serializer)
      → b.owns ≡ false
      → b.write_pos + length bytes + 2 ≤ b.max_size
      → length bytes + length bytes ≤ b.max_size
      → write_bytes scaled fresh bytes b
        ≡ some (true, after bytes (after (size_bytes (length bytes)) b))
  unfolding write_bytes
  write_bytes-after bytes b o room twice = ground (
    arith,
    grow_to_kept (b.write_pos + length bytes) b o,
    write16-after (length bytes) b o (omega arith),
    copy_in-after bytes (after (size_bytes (length bytes)) b) twice (omega arith),
  )

  write_text-after :
      (text : List ℕ) (b : Serializer)
      → b.owns ≡ false
      → length text < 65536
      → b.write_pos + length text + 4 ≤ b.max_size
      → length text + length text ≤ b.max_size
      → write_text scaled fresh text b ≡ some (true, after_text text b)
  unfolding write_text
  write_text-after text b o big room twice = ground (
    arith,
    write16-after (length text) b o (omega arith),
    write_bytes-after text (after (size_bytes (length text)) b) o (omega arith) twice,
  )

  -- A text of at least two characters that fits a buffer that the serializer does not own is
  -- written with its length twice, so what is read back from where it was written is the two
  -- bytes of the length, then the text without its last two characters.
  pub write_text-read_text :
      (text : List ℕ) (b : Serializer)
      → b.owns ≡ false
      → 2 ≤ length text
      → length text < 65536
      → b.write_pos + length text + 4 ≤ b.max_size
      → length text + length text ≤ b.max_size
      → (b' : Serializer) × (write_text scaled fresh text b ≡ some (true, b'))
        × (b'.write_pos ≡ b.write_pos + length text + 4)
        × (read_text (record b' { read_pos = b.write_pos })
            ≡ some (misread text, record b' { read_pos = b.write_pos + 2 + length text }))
  unfolding read_text
  write_text-read_text text b o two big room twice = (
    after_text text b,
    write_text-after text b o big room twice,
    omega arith,
    rw
        (
          length_read text b big,
          read_text,
          ap (λ k. slice (after_text text b).data_ptr (b.write_pos + 2) k) (sym whole)
              ∙ slice_held (misread text) (after_text text b).data_ptr (b.write_pos + 2)
                  (λ i l. cells text b i big l),
        )
        (ground arith),
  )
    where
      whole : length (misread text) ≡ length text
      whole = omega (arith, short text)
