-- ===== src/Examples/CheckoutExamples.antt =====
-- A basket on its way from internal/basket to internal/ordering, in whole amounts.
use golang_microservices_eco.Prelude.{
  Write, written, lost, unconfirmed, ℕ, suc, ◌≡◌, refl, ℤ, pos, String, List, [], ◌∷◌, false,
  Option, some, none, str_eq, length, if◌then◌else◌, is_blank,
}
use golang_microservices_eco.Platform.Decimal.{whole, whole-DecimalLaws}
use golang_microservices_eco.Platform.Messaging.{Envelope}
use golang_microservices_eco.Platform.Messaging.{Header}
use golang_microservices_eco.Platform.Basketv1.{Address, CheckoutSubmitted, checkout_contract}
use golang_microservices_eco.Platform.Inbox.{Delivery}
use golang_microservices_eco.Platform.Inbox.Once.{run, empty, IsDone, dropped, run-empty-IsDone}
use golang_microservices_eco.Basket.Carts.{ShoppingCart, apply_discounts, total_price}
use golang_microservices_eco.Basket.Carts.Discounts.{IsDiscounted, apply_discounts-IsDiscounted}
use golang_microservices_eco.Basket.Checkout.{
  store, Error, Database, BasketRow, CheckoutBasketCommand, checkout, checkout_event, prepare,
  get_by_user_name, announce, checkout_id,
}
use golang_microservices_eco.Basket.Checkout.Atomic.{
  CheckoutEnded, checkout-CheckoutEnded, checkout_again, checkout_late, prepare-same,
}
use golang_microservices_eco.Ordering.Domain.Values
use golang_microservices_eco.Ordering.Domain.Values.{Customer, Product}
use golang_microservices_eco.Ordering.Domain.Order.{Order, new_order, add}
use golang_microservices_eco.Ordering.Orders.Checkout
use golang_microservices_eco.Ordering.Orders.Checkout.{
  order_from, build, total_of, customer_name, new_order_from, add_lines,
}
use golang_microservices_eco.Ordering.Orders.Checkout.Placed.{IsPlaced, order_from-IsPlaced}
use golang_microservices_eco.Ordering.Orders.Checkout.Submitted.{order_from-checkout_event}

abbrev pub cart : ShoppingCart ℤ
cart = record {
  user_name = "ada";
  items =
      record {
        quantity = pos 2;
        color = "red";
        price = pos 30;
        product_id = 5;
        product_name = "Lamp";
      }
      ∷ record {
        quantity = pos 1;
        color = "blue";
        price = pos 4;
        product_id = 6;
        product_name = "Pen";
      }
      ∷ [];
  version = 77;
}

abbrev coupon : String → Option ℤ
coupon name = some (pos 10)

abbrev discounted : ShoppingCart ℤ
discounted = record {
  user_name = "ada";
  items =
      record {
        quantity = pos 2;
        color = "red";
        price = pos 20;
        product_id = 5;
        product_name = "Lamp";
      }
      ∷ record {
        quantity = pos 1;
        color = "blue";
        price = pos 0;
        product_id = 6;
        product_name = "Pen";
      }
      ∷ [];
  version = 77;
}

apply_discounts-IsDiscounted_example : IsDiscounted cart discounted
unfolding apply_discounts
apply_discounts-IsDiscounted_example =
    apply_discounts-IsDiscounted whole-DecimalLaws coupon cart discounted refl

abbrev row : BasketRow ℤ
row = record { items = cart.items; version = 77 }

abbrev pub db : Database ℤ
db = record { baskets = λ name. if str_eq name "ada" then some row else none; messages = [] }

abbrev pub announcement : Envelope
announcement = record {
  id = 9;
  contract = checkout_contract;
  aggregate_id = "ada";
  correlation_id = "request";
  occurred_on_utc = 0;
  payload = [];
}

-- The database after the checkout.
abbrev checked_out : Database ℤ
checked_out = (checkout false written "ada" announcement db).1

checkout-CheckoutEnded_example :
    CheckoutEnded unconfirmed "ada" announcement db
      (checkout false unconfirmed "ada" announcement db)
checkout-CheckoutEnded_example = checkout-CheckoutEnded false unconfirmed "ada" announcement db

checkout_again_example :
    (e : Error) × (checkout false written "ada" announcement checked_out ≡ (some e, checked_out))
unfolding checkout
checkout_again_example =
    checkout_again false false written written "ada" announcement announcement db checked_out refl

abbrev address : Address
address = record {
  first_name = "Ada";
  last_name = "Lovelace";
  email_address = "ada@example.com";
  address_line = "1 Main St";
  country = "UK";
  state = "";
  zip_code = "1000";
}

abbrev command : CheckoutBasketCommand
command = record {
  user_name = "ada";
  customer_id = 3;
  address = address;
  payment_token = "pt_1";
  card_last4 = "4242";
  payment_method = pos 1;
}

abbrev header : ℕ → Header
header time = record { id = 1; occurred_on_utc = time; correlation_id = "request" }

-- A digest that is no digest, for the run only.
abbrev digest : List ℕ → ℕ
digest name = suc (length name)

abbrev encode : CheckoutSubmitted ℤ → Option (List ℕ)
encode event = some []

abbrev announced_at : ℕ → Envelope
announced_at time = record {
  id = 37;
  contract = checkout_contract;
  aggregate_id = "ada";
  correlation_id = "request";
  occurred_on_utc = time;
  payload = [];
}

prepare-same_example : (announced_at 6).id ≡ (announced_at 5).id
unfolding prepare checkout_id get_by_user_name announce
prepare-same_example =
    prepare-same digest encode (header 5) (header 6) command command db (announced_at 5)
      (announced_at 6) refl refl refl

-- The database after the second request, and after the user has filled the basket again.
abbrev cleared : Database ℤ
cleared = (checkout false written "ada" (announced_at 6) db).1

abbrev filled_again : Database ℤ
filled_again = (store written 78 discounted cleared).1

checkout_late_example :
    ((checkout false written "ada" (announced_at 5) filled_again).0 ≡ none)
    × ((checkout false written "ada" (announced_at 5) filled_again).1.baskets "ada" ≡ none)
    × ((checkout false written "ada" (announced_at 5) filled_again).1.messages ≡ cleared.messages)
unfolding prepare checkout_id get_by_user_name announce checkout
checkout_late_example =
    checkout_late digest encode (header 5) (header 6) command command 78 discounted db cleared
      (announced_at 5) (announced_at 6) refl refl refl refl refl

abbrev pub event : CheckoutSubmitted ℤ
event = checkout_event (header 5) command cart

abbrev pub draws : ℕ → ℕ
draws n = n

order_from-checkout_event_example : order_from 40 draws event ≡ build 40 draws event
order_from-checkout_event_example =
    order_from-checkout_event whole-DecimalLaws (header 5) command cart 40 draws (λ h. cc)

-- A handler that does its work and reports an error, one that works, and a delivery too many.
abbrev delivery : Write → Delivery
delivery work = record {
  message_id = 9;
  claim_fails = false;
  state_fails = false;
  work = work;
  completion = written;
}

abbrev deliveries : List Delivery
deliveries = delivery unconfirmed ∷ delivery lost ∷ delivery written ∷ delivery written ∷ []

run-empty-IsDone_example :
    IsDone "ordering" (λ id. dropped id deliveries) (run "ordering" deliveries empty)
run-empty-IsDone_example = run-empty-IsDone "ordering" deliveries

abbrev home : Values.Address
home = record {
  first_name = "Ada";
  last_name = "Lovelace";
  email_address = "ada@example.com";
  address_line = "1 Main St";
  country = "UK";
  state = "";
  zip_code = "1000";
}

abbrev paid_by : Values.Payment
paid_by = record { payment_token = "pt_1"; card_last4 = "4242"; payment_method = pos 1 }

abbrev pub order : Order ℤ
order = (add 1 6 (pos 1) (pos 4) (add 0 5 (pos 2) (pos 30) (new_order 40 3 home home paid_by)).0).0

abbrev pub buyer : Customer
buyer = record { id = 3; name = "Ada Lovelace"; email = "ada@example.com" }

abbrev pub products : List (Product ℤ)
products =
    record { id = 5; name = "Lamp"; price = pos 30 }
    ∷ record { id = 6; name = "Pen"; price = pos 4 }
    ∷ []

pub accepted : order_from 40 draws event ≡ Checkout.ok (order, buyer, products)
unfolding order_from build checkout_event total_of total_price Values.new_customer_id
    Values.new_customer is_blank customer_name new_order_from Values.new_order_id Values.new_address
    Values.new_payment add_lines Values.new_product_id Values.new_product add
accepted = refl

order_from-IsPlaced_example : IsPlaced event order
order_from-IsPlaced_example = order_from-IsPlaced 40 draws event order buyer products accepted
