-- ===== src/Ordering/Domain/Status.antt =====
-- internal/ordering/domain/status.go. An OrderStatus is an int, so a stored value may be unknown.
use golang_microservices_eco.Prelude.{
  zero, suc, String, ℤ, pos, negsuc, Bool, false, if◌then◌else◌, List, [], ◌∷◌, str_eq, eq_iff, ◌≡◌,
  ◌↔◌, refl, arith, ◌==◌, ◌||◌, true,
}
use golang_microservices_eco.Ordering.Domain.Values.{Result, ok, err, unknown_status_name}

abbrev pub draft : ℤ
draft = pos 1

abbrev pub pending : ℤ
pending = pos 2

abbrev completed : ℤ
completed = pos 3

abbrev pub cancelled : ℤ
cancelled = pos 4

-- OrderStatus.String.
unfoldable pub status_string : ℤ → String
status_string (pos n) =
    if n == 1
    then "Draft"
    else if n == 2
    then "Pending"
    else if n == 3
    then "Completed"
    else if n == 4
    then "Cancelled"
    else "Unknown"
status_string (negsuc n) = "Unknown"

-- OrderStatus.IsValid.
unfoldable pub is_valid : ℤ → Bool
is_valid (pos n) = n == 1 || n == 2 || n == 3 || n == 4
is_valid (negsuc n) = false

-- The loop of ParseOrderStatus.
find_status : String → List ℤ → Result ℤ
find_status name [] = err (unknown_status_name name)
find_status name (status ∷ rest) =
    let next = find_status name rest in
    if str_eq (status_string status) name then ok status else next

unfoldable pub parse_order_status : String → Result ℤ
unfolding find_status status_string
parse_order_status name = find_status name (draft ∷ pending ∷ completed ∷ cancelled ∷ [])

-- Printing a valid status and parsing the name gives the status back.
parse_order_status-status_string :
    (s : ℤ) → is_valid s ≡ true → parse_order_status (status_string s) ≡ ok s
unfolding parse_order_status is_valid status_string
parse_order_status-status_string (pos zero) h = cc
parse_order_status-status_string (pos (suc zero)) h = refl
parse_order_status-status_string (pos (suc (suc zero))) h = refl
parse_order_status-status_string (pos (suc (suc (suc zero)))) h = refl
parse_order_status-status_string (pos (suc (suc (suc (suc zero))))) h = refl
parse_order_status-status_string (pos (suc (suc (suc (suc (suc n)))))) h = ground arith
parse_order_status-status_string (negsuc n) h = cc

parse_order_status_sound :
    (name : String) (s : ℤ)
    → parse_order_status name ≡ ok s
    → (is_valid s ≡ true) × (status_string s ≡ name)
unfolding parse_order_status is_valid status_string
parse_order_status_sound name s h = ground (
  arith,
  eq_iff "Draft" name,
  eq_iff "Pending" name,
  eq_iff "Completed" name,
  eq_iff "Cancelled" name,
)

-- ParseOrderStatus succeeds with a status exactly if the status is valid and is rendered as the
-- name.
pub parse_order_status-eq_ok :
    (name : String) (s : ℤ)
    → (parse_order_status name ≡ ok s) ↔ ((is_valid s ≡ true) × (status_string s ≡ name))
parse_order_status-eq_ok name s =
    (parse_order_status_sound name s, λ h. rw (← h.1) (parse_order_status-status_string s h.0))
