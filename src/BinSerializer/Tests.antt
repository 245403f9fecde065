-- ===== src/BinSerializer/Tests.antt =====
-- A BinSerializer on a small buffer.
use anger.Common.{ℕ, ◌+◌, ◌/◌, ◌≤◌, ◌≡◌, refl, true, false, List, [], ◌∷◌, none, some, map, arith}
use anger.Common.Memory.{Memory}
use anger.BinSerializer.{
  Serializer, new_serializer, write8, write16, write32, write_bytes, copy_in, write_text, read_text,
}
use anger.BinSerializer.Scalars.{
  Width, Item, AllFit, total, write_all, read_all, write_all-read_all,
}
use anger.BinSerializer.Texts.{misread, write_text-read_text}
use anger.BinSerializer.Positions.{
  IsValid, Call, perform, Stays, perform-Stays, write-new_serializer,
}

abbrev noise : Memory
noise = λ i. 7

-- A fifth more.
abbrev scaled : ℕ → ℕ
scaled n = n + n / 5

abbrev borrowed : ℕ → Serializer
borrowed n = record {
  data_ptr = noise;
  orig_ptr = noise;
  write_pos = 4;
  read_pos = 0;
  max_size = n;
  orig_size = 0;
  owns = false;
}

abbrev hello : List ℕ
hello = 104 ∷ 101 ∷ 108 ∷ 111 ∷ []

-- A text that is let through writes two bytes past the end of the buffer.
overrun : write_text scaled noise hello (borrowed 10) ≡ none
unfolding write_text write16 write_bytes copy_in
overrun = refl

abbrev items : List Item
items = (Width.w8, 5) ∷ (Width.w16, 258) ∷ (Width.w32, 70000) ∷ []

write_all-read_all_example :
    (b' : Serializer) × (write_all scaled noise items (borrowed 32) ≡ some (true, b'))
    × (b'.write_pos ≡ 4 + total items)
    × (read_all (map (λ x. x.0) items) (record b' { read_pos = 4 })
        ≡ some (map (λ x. x.1) items, record b' { read_pos = b'.write_pos }))
unfolding total AllFit
write_all-read_all_example =
    write_all-read_all scaled noise items (borrowed 32) refl
      (omega arith, (omega arith, (omega arith, refl))) (omega arith)

write_text-read_text_example :
    (b' : Serializer) × (write_text scaled noise hello (borrowed 32) ≡ some (true, b'))
    × (b'.write_pos ≡ 4 + 4 + 4)
    × (read_text (record b' { read_pos = 4 })
        ≡ some (misread hello, record b' { read_pos = 4 + 2 + 4 }))
write_text-read_text_example =
    write_text-read_text scaled noise hello (borrowed 32) refl (omega arith) (omega arith)
      (omega arith) (omega arith)

borrowed-IsValid : IsValid (borrowed 10)
borrowed-IsValid = record { behind = omega arith; inside = omega arith; borrowed = refl }

perform-Stays_example :
    Stays (Call.writes16 3) (borrowed 10) (perform scaled noise (Call.writes16 3) (borrowed 10))
perform-Stays_example = perform-Stays scaled noise (Call.writes16 3) (borrowed 10) borrowed-IsValid

larger : (n : ℕ) → n ≤ scaled n
larger n = omega arith

write-new_serializer_example :
    (write8 scaled noise 1 (new_serializer noise) ≡ none)
    × (write16 scaled noise 1 (new_serializer noise) ≡ none)
    × (write32 scaled noise 1 (new_serializer noise) ≡ none)
    × (write_text scaled noise hello (new_serializer noise) ≡ none)
write-new_serializer_example = write-new_serializer scaled noise noise 1 hello larger (omega arith)
