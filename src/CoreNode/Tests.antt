-- ===== src/CoreNode/Tests.antt =====
-- Errors of a CoreNode.
use anger.Common.{◌≡◌, refl, not, true, false, List, [], ◌∷◌}
use anger.Util.{Text}
use anger.Packet.{CriticalError, serialization_error, socket_is_null}
use anger.CoreNode.{
  CoreNode, reset, set_critical_error, set_flag, flag_of, has_flag, has_critical_errors,
}
use anger.CoreNode.Errors.{set_all, was_set, last_name, is_empty, set_all-reset}

abbrev node : CoreNode
node = record {
  is_p2p = false;
  is_listening = true;
  is_super_peer = false;
  critical_errors = 5;
  function_in_error = 102 ∷ [];
}

abbrev errors : List (CriticalError × Text)
errors =
    (serialization_error, 103 ∷ [])
    ∷ (socket_is_null, 104 ∷ [])
    ∷ (serialization_error, 105 ∷ [])
    ∷ []

set_all-reset_example :
    ((d : CriticalError)
      → has_flag (set_all errors (reset node)).critical_errors (flag_of d)
        ≡ was_set (flag_of d) errors)
    × (has_critical_errors (set_all errors (reset node)) ≡ not (is_empty errors))
    × ((set_all errors (reset node)).function_in_error ≡ last_name [] errors)
set_all-reset_example = set_all-reset errors node

five : (set_all errors (reset node)).critical_errors ≡ 5
unfolding set_all reset set_critical_error set_flag has_flag
five = refl
