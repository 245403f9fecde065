-- ===== src/CoreNode/Errors.antt =====
-- The critical errors of a CoreNode (GameConn/CoreNode.cpp).
use anger.Common.{ℕ, ◌≡◌, ◌∙◌, refl, ap, Bool, true, false, not, ◌||◌, List, [], ◌∷◌, arith, ◌==◌}
use anger.Util.{Text}
use anger.Packet.{
  CriticalError, serialization_error, cannot_find_external_c_function, socket_is_null,
  too_much_data_to_send, invalid_logic,
}
use anger.CoreNode.{
  CoreNode, flag_of, has_flag, set_flag, reset, set_critical_error, has_critical_errors,
}

-- Errors that are set one behind the other, each with the name of a function.
unfoldable pub set_all : List (CriticalError × Text) → CoreNode → CoreNode
unfolding set_critical_error
set_all [] n = n
set_all ((error, name) ∷ errors) n = set_all errors (set_critical_error error name n)

-- Whether an error is one of them, and the name of the last.
unfoldable pub was_set : ℕ → List (CriticalError × Text) → Bool
was_set flag [] = false
was_set flag ((error, name) ∷ errors) = (flag == flag_of error) || was_set flag errors

unfoldable pub last_name : Text → List (CriticalError × Text) → Text
last_name before [] = before
last_name before ((error, name) ∷ errors) = last_name name errors

abbrev pub is_empty : List (CriticalError × Text) → Bool
is_empty [] = true
is_empty (x ∷ errors) = false

-- A flag that is set leaves the others as they are.
has_flag-set_flag :
    (e d : CriticalError) (x : ℕ)
    → has_flag (set_flag x (flag_of e)) (flag_of d)
      ≡ ((flag_of d == flag_of e) || has_flag x (flag_of d))
unfolding has_flag set_flag
has_flag-set_flag serialization_error serialization_error x = ground arith
has_flag-set_flag serialization_error cannot_find_external_c_function x = ground arith
has_flag-set_flag serialization_error socket_is_null x = ground arith
has_flag-set_flag serialization_error too_much_data_to_send x = ground arith
has_flag-set_flag serialization_error invalid_logic x = ground arith
has_flag-set_flag cannot_find_external_c_function serialization_error x = ground arith
has_flag-set_flag cannot_find_external_c_function cannot_find_external_c_function x = ground arith
has_flag-set_flag cannot_find_external_c_function socket_is_null x = ground arith
has_flag-set_flag cannot_find_external_c_function too_much_data_to_send x = ground arith
has_flag-set_flag cannot_find_external_c_function invalid_logic x = ground arith
has_flag-set_flag socket_is_null serialization_error x = ground arith
has_flag-set_flag socket_is_null cannot_find_external_c_function x = ground arith
has_flag-set_flag socket_is_null socket_is_null x = ground arith
has_flag-set_flag socket_is_null too_much_data_to_send x = ground arith
has_flag-set_flag socket_is_null invalid_logic x = ground arith
has_flag-set_flag too_much_data_to_send serialization_error x = ground arith
has_flag-set_flag too_much_data_to_send cannot_find_external_c_function x = ground arith
has_flag-set_flag too_much_data_to_send socket_is_null x = ground arith
has_flag-set_flag too_much_data_to_send too_much_data_to_send x = ground arith
has_flag-set_flag too_much_data_to_send invalid_logic x = ground arith
has_flag-set_flag invalid_logic serialization_error x = ground arith
has_flag-set_flag invalid_logic cannot_find_external_c_function x = ground arith
has_flag-set_flag invalid_logic socket_is_null x = ground arith
has_flag-set_flag invalid_logic too_much_data_to_send x = ground arith
has_flag-set_flag invalid_logic invalid_logic x = ground arith

has_flag-set_all :
    (errors : List (CriticalError × Text)) (n : CoreNode) (d : CriticalError)
    → has_flag (set_all errors n).critical_errors (flag_of d)
      ≡ (was_set (flag_of d) errors || has_flag n.critical_errors (flag_of d))
unfolding set_all was_set set_critical_error
has_flag-set_all [] n d = refl
has_flag-set_all ((e, name) ∷ errors) n d = ground (
  arith,
  has_flag-set_all errors (set_critical_error e name n) d,
  has_flag-set_flag e d n.critical_errors,
)

set_all_name :
    (errors : List (CriticalError × Text)) (n : CoreNode)
    → (set_all errors n).function_in_error ≡ last_name n.function_in_error errors
unfolding set_all last_name set_critical_error
set_all_name [] n = refl
set_all_name ((e, name) ∷ errors) n = set_all_name errors (set_critical_error e name n)

some_flag : (e : CriticalError) (x : ℕ) → (set_flag x (flag_of e) == 0) ≡ false
unfolding has_flag set_flag
some_flag serialization_error x = ground arith
some_flag cannot_find_external_c_function x = ground arith
some_flag socket_is_null x = ground arith
some_flag too_much_data_to_send x = ground arith
some_flag invalid_logic x = ground arith

set_all_set :
    (errors : List (CriticalError × Text)) (n : CoreNode)
    → has_critical_errors n ≡ true
    → has_critical_errors (set_all errors n) ≡ true
unfolding set_all set_critical_error has_critical_errors
set_all_set [] n h = h
set_all_set ((e, name) ∷ errors) n h =
    set_all_set errors (set_critical_error e name n) (ap not (some_flag e n.critical_errors))

no_flag : (d : CriticalError) (b : Bool) → (b || has_flag 0 (flag_of d)) ≡ b
unfolding has_flag
no_flag serialization_error b = ground arith
no_flag cannot_find_external_c_function b = ground arith
no_flag socket_is_null b = ground arith
no_flag too_much_data_to_send b = ground arith
no_flag invalid_logic b = ground arith

any_set :
    (errors : List (CriticalError × Text)) (n : CoreNode)
    → has_critical_errors (set_all errors (reset n)) ≡ not (is_empty errors)
unfolding set_all reset has_critical_errors set_critical_error
any_set [] n = refl
any_set ((e, name) ∷ errors) n =
    set_all_set errors (set_critical_error e name (reset n)) (ap not (some_flag e 0))

-- The errors that are set on a node that was reset, in any order and however often: the flag of an
-- error is set exactly if the error is one of them, the node has critical errors exactly if there is
-- any, and the function in error is that of the last.
pub set_all-reset :
    (errors : List (CriticalError × Text)) (n : CoreNode)
    → ((d : CriticalError)
        → has_flag (set_all errors (reset n)).critical_errors (flag_of d)
          ≡ was_set (flag_of d) errors)
      × (has_critical_errors (set_all errors (reset n)) ≡ not (is_empty errors))
      × ((set_all errors (reset n)).function_in_error ≡ last_name [] errors)
unfolding reset
set_all-reset errors n = (
  λ d. has_flag-set_all errors (reset n) d ∙ no_flag d (was_set (flag_of d) errors),
  any_set errors n,
  set_all_name errors (reset n),
)
