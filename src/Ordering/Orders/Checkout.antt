-- ===== src/Ordering/Orders/Checkout.antt =====
-- internal/ordering/orders/checkout.go: the order that a checkout describes. The ids that uuid.New
-- draws are arguments, one for the order and one for each line. Place is the repository's.
pub mod Placed
pub mod Submitted
pub mod Known
pub use golang_microservices_eco.Prelude.{ok, err, ◌>>=◌}
use golang_microservices_eco.Prelude.{
  Fallible, ℕ, suc, String, ℤ, Bool, Option, none, some, List, [], ◌∷◌, ◌++◌, if◌then◌else◌, negate,
  trim_space, is_empty,
}
use Prim.Native.String.{◌++◌ as str_append}
use golang_microservices_eco.Platform.Decimal.{Decimal}
use golang_microservices_eco.Platform.Basketv1
use golang_microservices_eco.Platform.Basketv1.{Line, CheckoutSubmitted}
use golang_microservices_eco.Ordering.Domain.Values
use golang_microservices_eco.Ordering.Domain.Values.{
  Address, new_address, new_payment, new_customer_id, new_product_id, new_order_id, Customer,
  new_customer, Product, new_product,
}
use golang_microservices_eco.Ordering.Domain.Order.{Order, new_order, add}

pub data Error : Type 0 where
  no_items total_mismatch : Error
  invalid : Values.Error → Error

abbrev pub Result : Type 0 → Type 0
Result A = Fallible Error A

abbrev pub domain : {A : Type 0} → Values.Result A → Result A
domain (Values.ok a) = ok a
domain (Values.err e) = err (invalid e)

unfoldable pub address_of : Basketv1.Address → Result Address
address_of a = domain (
    new_address a.first_name a.last_name a.email_address a.address_line a.country a.state
      a.zip_code)

module _ {Amount : Type 0} where
  unfoldable pub customer_name : CheckoutSubmitted Amount → String
  customer_name event =
      let full = trim_space (
        str_append event.shipping_address.first_name
          (str_append " " event.shipping_address.last_name)) in
      if is_empty full then event.user_name else full

  -- newOrder.
  unfoldable pub new_order_from : ℕ → CheckoutSubmitted Amount → ℕ → Result (Order Amount)
  unfolding address_of
  new_order_from order_id event customer_id = do
    id ← domain (new_order_id order_id)
    shipping ← address_of event.shipping_address
    billing ← address_of event.billing_address
    payment ← domain (
        new_payment event.payment.payment_token event.payment.card_last4
          event.payment.payment_method)
    ok (new_order id customer_id shipping billing payment)

module _ {Amount : Type 0} ⦃d : Decimal Amount⦄ where
  unfoldable pub total_from : Amount → List (Line Amount) → Amount
  total_from total [] = total
  total_from total (line ∷ lines) =
      total_from (d.add total (d.mul line.unit_price (d.new_from_int line.quantity))) lines

  unfoldable pub total_of : List (Line Amount) → Amount
  unfolding total_from
  total_of lines = total_from d.zero lines

  -- The order behind an Add, or its error.
  abbrev pub added : Order Amount × Option Values.Error → Result (Order Amount)
  added (order, none) = ok order
  added (order, some e) = err (invalid e)

  -- The loop over the items, from the line with this number.
  unfoldable pub add_lines :
      (ℕ → ℕ)
      → ℕ
      → List (Line Amount)
      → Order Amount
      → List (Product Amount)
      → Result (Order Amount × List (Product Amount))
  add_lines draws i [] order products = ok (order, products)
  add_lines draws i (line ∷ lines) order products = do
    product_id ← domain (new_product_id line.product_id)
    product ← domain (new_product product_id line.product_name line.unit_price)
    order' ← added (add (draws i) product_id line.quantity line.unit_price order)
    add_lines draws (suc i) lines order' (products ++ product ∷ [])

  -- orderFrom behind its first two checks.
  unfoldable pub build :
      ℕ
      → (ℕ → ℕ)
      → CheckoutSubmitted Amount
      → Result (Order Amount × Customer × List (Product Amount))
  build order_id draws event = do
    customer_id ← domain (new_customer_id event.customer_id)
    customer ←
        domain (new_customer customer_id (customer_name event) event.shipping_address.email_address)
    order ← new_order_from order_id event customer_id
    result ← add_lines draws 0 event.items order []
    ok (result.0, customer, result.1)

  unfoldable pub order_from :
      ℕ
      → (ℕ → ℕ)
      → CheckoutSubmitted Amount
      → Result (Order Amount × Customer × List (Product Amount))
  order_from order_id draws event = elim event.items [
    | [] ↦ err no_items
    | line ∷ lines ↦
        if negate (d.equal (total_of event.items) event.total_price)
        then err total_mismatch
        else build order_id draws event
  ]
