-- ===== src/Ordering/Rows.antt =====
-- internal/ordering/mssql: the rows of the tables and scan.go. A column that may be NULL is an
-- option; a line and a product keep the price that reading and parsing their column gives. A UUID
-- crosses the boundary as its value.
pub mod Reading
use golang_microservices_eco.Prelude.{
  ℕ, ◌==◌, String, ℤ, pos, Option, none, some, List, [], is_empty, if◌then◌else◌, ok, err, ◌>>=◌,
}
use golang_microservices_eco.Ordering.Domain.Values.{
  Result, Address, Payment, no_payment, is_zero, new_order_id, new_customer_id, new_product_id,
  new_order_item_id, new_address, new_payment,
}
use golang_microservices_eco.Ordering.Domain.Status.{status_string, parse_order_status}
use golang_microservices_eco.Ordering.Domain.Order.{OrderItem, Order, restore}

pub record AddressRow : Type 0 where
  pub first_name : String
  pub last_name : String
  pub email_address : Option String
  pub address_line : String
  pub country : String
  pub state : String
  pub zip_code : String

pub record PaymentRow : Type 0 where
  pub payment_token : Option String
  pub card_last4 : Option String
  pub payment_method : Option ℤ

pub record OrderRow : Type 0 where
  pub id : ℕ
  pub customer_id : ℕ
  pub status : String
  pub shipping_address : AddressRow
  pub billing_address : AddressRow
  pub payment : PaymentRow
  pub created_at : ℕ

unfoldable pub nullable : String → Option String
nullable value = if is_empty value then none else some value

unfoldable pub deref : Option String → String
deref none = ""
deref (some value) = value

abbrev pub address_row : Address → AddressRow
address_row a = record {
  first_name = a.first_name;
  last_name = a.last_name;
  email_address = nullable a.email_address;
  address_line = a.address_line;
  country = a.country;
  state = a.state;
  zip_code = a.zip_code;
}

unfoldable pub payment_row : Payment → PaymentRow
payment_row p =
    if is_zero p
    then record { payment_token = none; card_last4 = none; payment_method = none }
    else record {
      payment_token = some p.payment_token;
      card_last4 = some p.card_last4;
      payment_method = some p.payment_method;
    }

unfoldable pub scan_address : AddressRow → Result Address
scan_address a =
    new_address a.first_name a.last_name (deref a.email_address) a.address_line a.country a.state
      a.zip_code

abbrev pub method_of : Option ℤ → ℤ
method_of none = pos 0
method_of (some method) = method

unfoldable pub scan_payment : PaymentRow → Result Payment
scan_payment p = elim p.payment_token [
  | none ↦ ok no_payment
  | some token ↦ new_payment token (deref p.card_last4) (method_of p.payment_method)
]

module _ {Amount : Type 0} where
  -- What upsertOrder writes at this time.
  unfoldable pub order_row : ℕ → Order Amount → OrderRow
  unfolding payment_row
  order_row now order = record {
    id = order.id;
    customer_id = order.customer_id;
    status = status_string order.status;
    shipping_address = address_row order.shipping_address;
    billing_address = address_row order.billing_address;
    payment = payment_row order.payment;
    created_at = now;
  }

  unfoldable pub scan_order : OrderRow → Result (Order Amount)
  unfolding scan_address scan_payment
  scan_order row = do
    id ← new_order_id row.id
    customer_id ← new_customer_id row.customer_id
    status ← parse_order_status row.status
    shipping ← scan_address row.shipping_address
    billing ← scan_address row.billing_address
    payment ← scan_payment row.payment
    ok (restore id customer_id shipping billing payment status [])

  unfoldable pub scan_order_item : OrderItem Amount → Result (OrderItem Amount)
  scan_order_item row = do
    id ← new_order_item_id row.id
    order_id ← new_order_id row.order_id
    product_id ← new_product_id row.product_id
    ok (record {
      id = id;
      order_id = order_id;
      product_id = product_id;
      quantity = row.quantity;
      price = row.price;
    })

  unfoldable pub with_items : Order Amount → List (OrderItem Amount) → Order Amount
  with_items order items =
      restore order.id order.customer_id order.shipping_address order.billing_address order.payment
        order.status items
