-- ===== src/Ordering/Orders/Views.antt =====
-- internal/ordering/orders/view.go.
use golang_microservices_eco.Prelude.{ℕ, String, ℤ, List, map, Option, none, some, if◌then◌else◌}
use golang_microservices_eco.Platform.Decimal.{Decimal}
use golang_microservices_eco.Ordering.Domain.Values.{Address, Payment, is_zero}
use golang_microservices_eco.Ordering.Domain.Status.{status_string}
use golang_microservices_eco.Ordering.Domain.Order.{OrderItem, Order, total_price}

pub record PaymentView : Type 0 where
  pub card_last4 : String
  pub payment_method : ℤ

pub record OrderItemView (Amount : Type 0) : Type 0 where
  pub order_id : ℕ
  pub product_id : ℕ
  pub quantity : ℤ
  pub price : Amount

-- An AddressView has the fields of an address.
pub record OrderView (Amount : Type 0) : Type 0 where
  pub id : ℕ
  pub customer_id : ℕ
  pub status : String
  pub shipping_address : Address
  pub billing_address : Address
  pub payment : Option PaymentView
  pub items : List (OrderItemView Amount)
  pub total_price : Amount

unfoldable pub payment_view : Payment → Option PaymentView
payment_view payment =
    if is_zero payment
    then none
    else some (record { card_last4 = payment.card_last4; payment_method = payment.payment_method })

abbrev pub item_view : {Amount : Type 0} → OrderItem Amount → OrderItemView Amount
item_view item = record {
  order_id = item.order_id;
  product_id = item.product_id;
  quantity = item.quantity;
  price = item.price;
}

module _ {Amount : Type 0} ⦃d : Decimal Amount⦄ where
  unfoldable pub view_of : Order Amount → OrderView Amount
  unfolding payment_view
  view_of order = record {
    id = order.id;
    customer_id = order.customer_id;
    status = status_string order.status;
    shipping_address = order.shipping_address;
    billing_address = order.billing_address;
    payment = payment_view order.payment;
    items = map item_view order.items;
    total_price = total_price order;
  }

  unfoldable pub views_of : List (Order Amount) → List (OrderView Amount)
  views_of orders = map view_of orders
