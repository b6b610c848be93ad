-- ===== src/Examples/OrderExamples.antt =====
-- Orders of internal/ordering/domain, in whole amounts.
use golang_microservices_eco.Prelude.{ℤ, pos, ◌≡◌, List, [], ◌∷◌, true, ◌↔◌, keep}
use golang_microservices_eco.Platform.Decimal.{whole}
use golang_microservices_eco.Ordering.Domain.Values.{Address, Payment, ok}
use golang_microservices_eco.Ordering.Domain.Status.{
  pending, status_string, is_valid, parse_order_status, parse_order_status-eq_ok,
}
use golang_microservices_eco.Ordering.Domain.Order.{
  Order, order_created, order_updated, new_order, remove,
}
use golang_microservices_eco.Ordering.Domain.Order.Compaction.{is_other, remove_lem}
use golang_microservices_eco.Ordering.Domain.Order.Invariant.{
  Command, updates, adds, removes, run, IsValid, run-new_order-IsValid, events-run-new_order,
}

abbrev pub home : Address
home = record {
  first_name = "Ada";
  last_name = "Lovelace";
  email_address = "ada@example.com";
  address_line = "1 Main St";
  country = "UK";
  state = "";
  zip_code = "1000";
}

abbrev pub card : Payment
card = record { payment_token = "pt_1"; card_last4 = "4242"; payment_method = pos 1 }

-- Two lines, one of which is removed, an update, and a price that is refused.
abbrev commands : List (Command ℤ)
commands =
    adds 11 5 (pos 2) (pos 10)
    ∷ adds 12 6 (pos 1) (pos 7)
    ∷ removes 5
    ∷ updates home home card (pos 3)
    ∷ adds 13 7 (pos 1) (pos 0)
    ∷ []

abbrev ordered : Order ℤ
ordered = run (new_order 1 2 home home card) commands

run-new_order-IsValid_example : IsValid ordered
run-new_order-IsValid_example = run-new_order-IsValid 1 2 home home card commands

events-run-new_order_example : ordered.events ≡ order_created ∷ order_updated ∷ []
unfolding is_valid
events-run-new_order_example = events-run-new_order 1 2 home home card commands

remove_lem_example : remove 6 ordered ≡ record ordered { items = keep (is_other 6) ordered.items }
remove_lem_example = remove_lem 6 ordered

parse_order_status-eq_ok_example :
    (parse_order_status "Pending" ≡ ok pending)
    ↔ ((is_valid pending ≡ true) × (status_string pending ≡ "Pending"))
parse_order_status-eq_ok_example = parse_order_status-eq_ok "Pending" pending
