-- ===== src/Sequence/Tests.antt =====
-- Sequence numbers on both sides of the wrap-around (RUDPLink::isSequenceNewer).
use anger.Common.{◌≡◌, refl, true, false, arith}
use anger.Common.Word.{add32}
use anger.Sequence.{is_sequence_newer, is_sequence_newer-add}

wrapped : is_sequence_newer 3 4294967290 ≡ true
unfolding is_sequence_newer
wrapped = refl

behind : is_sequence_newer 4294967290 3 ≡ false
unfolding is_sequence_newer
behind = refl

is_sequence_newer-add_example : is_sequence_newer (add32 4294967290 9) 4294967290 ≡ true
is_sequence_newer-add_example = is_sequence_newer-add 4294967290 9 (omega arith) (omega arith)
