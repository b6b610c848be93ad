-- ===== src/Ordering/Rows/Reading.antt =====
-- internal/ordering/mssql/scan.go on what repository.go has written.
use golang_microservices_eco.Prelude.{
  ℕ, ◌==◌, ◌≡◌, ◌⊎◌, inl, inr, refl, Bool-cases, true, false, String, [], All, is_empty, ok,
  is_blank, trim_space, trim_left, trim_right,
}
use golang_microservices_eco.Ordering.Domain.Values.{
  Address, Payment, no_payment, is_zero, new_order_id, new_customer_id, new_product_id,
  new_order_item_id, new_address, new_payment,
}
use golang_microservices_eco.Ordering.Domain.Status.{
  is_valid, status_string, parse_order_status-eq_ok,
}
use golang_microservices_eco.Ordering.Domain.Order.{OrderItem, Order, restore, build_order}
use golang_microservices_eco.Ordering.Rows.{
  order_row, address_row, payment_row, nullable, deref, scan_address, scan_payment, scan_order,
  scan_order_item,
}

-- An address that its constructor has made.
abbrev pub IsAddress : Address → Type 0
IsAddress a =
    new_address a.first_name a.last_name a.email_address a.address_line a.country a.state a.zip_code
    ≡ ok a

-- No payment, or one that its constructor has made.
abbrev pub IsPayment : Payment → Type 0
IsPayment p = (p ≡ no_payment) ⊎ (new_payment p.payment_token p.card_last4 p.payment_method ≡ ok p)

module _ {Amount : Type 0} where
  -- A line of this order whose ids are not nil.
  pub record IsStoredLine (order_id : ℕ) (item : OrderItem Amount) : Type 0 where
    pub id : (item.id == 0) ≡ false
    pub owner : item.order_id ≡ order_id
    pub product : (item.product_id == 0) ≡ false

  -- An order made of values that their constructors accept.
  pub record IsStorable (order : Order Amount) : Type 0 where
    pub id : (order.id == 0) ≡ false
    pub customer : (order.customer_id == 0) ≡ false
    pub status : is_valid order.status ≡ true
    pub shipping : IsAddress order.shipping_address
    pub billing : IsAddress order.billing_address
    pub payment : IsPayment order.payment
    pub lines : All (IsStoredLine order.id) order.items

deref-nullable : (s : String) → deref (nullable s) ≡ s
unfolding deref nullable is_empty
deref-nullable String.[] = refl
deref-nullable (String.◌∷◌ c s) = refl

scan_address-address_row : (a : Address) → IsAddress a → scan_address (address_row a) ≡ ok a
unfolding scan_address
scan_address-address_row a h = rw (deref-nullable a.email_address) h

empty-is_blank : (s : String) → is_empty s ≡ true → is_blank s ≡ true
unfolding is_blank trim_space trim_left trim_right
empty-is_blank String.[] h = refl
empty-is_blank (String.◌∷◌ c s) h = cc

-- The constructor takes no empty token.
pub new_payment-is_zero :
    (p : Payment)
    → new_payment p.payment_token p.card_last4 p.payment_method ≡ ok p
    → is_zero p ≡ false
unfolding new_payment is_zero
new_payment-is_zero p h = elim (Bool-cases (is_empty p.payment_token)) [
  | inl empty ↦ cc (rw (empty-is_blank p.payment_token empty) at h)
  | inr filled ↦ filled
]

scan_payment-payment_row : (p : Payment) → IsPayment p → scan_payment (payment_row p) ≡ ok p
unfolding scan_payment payment_row
scan_payment-payment_row p (inl e) = rw e (unfold is_zero in refl)
scan_payment-payment_row p (inr h) = rw (new_payment-is_zero p h) (unfold deref in h)

module _ {Amount : Type 0} where
  pub scan_order-order_row :
      (now : ℕ) (order : Order Amount)
      → IsStorable order
      → scan_order (order_row now order) ≡ ok (record order { events = []; items = [] })
  unfolding scan_order order_row new_order_id new_customer_id restore build_order
  scan_order-order_row now order s =
      rw
        (
          s.id,
          s.customer,
          (parse_order_status-eq_ok (status_string order.status) order.status).1 (s.status, refl),
          scan_address-address_row order.shipping_address s.shipping,
          scan_address-address_row order.billing_address s.billing,
          scan_payment-payment_row order.payment s.payment,
        )
        refl

  pub scan_order_item-lem :
      (order_id : ℕ) (item : OrderItem Amount)
      → (order_id == 0) ≡ false
      → IsStoredLine order_id item
      → scan_order_item item ≡ ok item
  unfolding scan_order_item new_order_item_id new_order_id new_product_id
  scan_order_item-lem order_id item h s =
      let e : (item.order_id == 0) ≡ false = rw (s.owner) h in rw (s.id, e, s.product) refl
