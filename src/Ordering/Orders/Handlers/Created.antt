-- ===== src/Ordering/Orders/Handlers/Created.antt =====
-- internal/ordering/orders/create_order.go: the order that a command describes.
use golang_microservices_eco.Prelude.{
  ℕ, suc, ◌==◌, ◌≡◌, refl, sym, ap, ◌∙◌, subst, arith, Bool-cases, false, inl, inr, is_blank,
  is_nonpositive, List, [], ◌∷◌, ◌++◌, append_assoc, append-nil, map, All, ok, ok-injective,
  >>=-eq-ok,
}
use golang_microservices_eco.Platform.Decimal.{Decimal}
use golang_microservices_eco.Ordering.Domain.Values.{
  Address, Payment, new_address, new_payment, new_payment-ok, new_order_id, new_customer_id,
  new_product_id,
}
use golang_microservices_eco.Ordering.Domain.Status.{pending, is_valid}
use golang_microservices_eco.Ordering.Domain.Order.{OrderItem, Order, order_created, new_order, add}
use golang_microservices_eco.Ordering.Rows.Reading.{IsAddress, IsPayment, IsStoredLine, IsStorable}
use golang_microservices_eco.Ordering.Orders.Views.{OrderItemView, item_view}
use golang_microservices_eco.Ordering.Orders.Handlers.{
  AddressInput, PaymentInput, LineInput, CreateOrderCommand, address_of, payment_of, accepted,
  add_lines, build_order,
}

address_of-IsAddress :
    (a : AddressInput) (address : Address) → address_of a ≡ ok address → IsAddress address
unfolding address_of new_address
address_of-IsAddress a address h = elim (Bool-cases (is_blank a.email_address)) [
  | inl blank ↦ cc (rw blank at h)
  | inr email ↦ elim (Bool-cases (is_blank a.address_line)) [
    | inl blank ↦ cc (rw (email, blank) at h)
    | inr line ↦ subst IsAddress (ok-injective (rw (email, line) at h)) (rw (email, line) refl)
  ]
]

pub payment_of-IsPayment :
    (p : PaymentInput) (payment : Payment) → payment_of p ≡ ok payment → IsPayment payment
unfolding payment_of
payment_of-IsPayment p payment h =
    let e = new_payment-ok p.payment_token p.card_last4 p.payment_method payment h in
    inr (
      subst (λ q. new_payment q.payment_token q.card_last4 q.payment_method ≡ ok payment) (sym e) h)

product_id-kept :
    (value id : ℕ) → new_product_id value ≡ ok id → (id ≡ value) × ((value == 0) ≡ false)
unfolding new_product_id
product_id-kept value id h = ground arith

order_id-kept : (value id : ℕ) → new_order_id value ≡ ok id → (id ≡ value) × ((id == 0) ≡ false)
unfolding new_order_id
order_id-kept value id h = ground arith

customer_id-kept :
    (value id : ℕ) → new_customer_id value ≡ ok id → (id ≡ value) × ((id == 0) ≡ false)
unfolding new_customer_id
customer_id-kept value id h = ground arith

module _ {Amount : Type 0} where
  -- A line of a command as a view shows it.
  abbrev pub line_view : ℕ → LineInput Amount → OrderItemView Amount
  line_view order_id line = record {
    order_id = order_id;
    product_id = line.product_id;
    quantity = line.quantity;
    price = line.price;
  }

  -- What the lines of a command become.
  pub record AreAdded (order_id : ℕ) (lines : List (LineInput Amount))
      (rows : List (OrderItem Amount)) : Type 0 where
    pub views : map item_view rows ≡ map (line_view order_id) lines
    pub stored : All (IsStoredLine order_id) rows

  module _ ⦃d : Decimal Amount⦄ where
    add-accepted :
        (item_id product_id : ℕ) (line : LineInput Amount) (order order' : Order Amount)
        → accepted (add item_id product_id line.quantity line.price order) ≡ ok order'
        → order' ≡ record order {
          items =
              order.items
              ++ record {
                id = item_id;
                order_id = order.id;
                product_id = product_id;
                quantity = line.quantity;
                price = line.price;
              }
                ∷ [];
        }
    unfolding add
    add-accepted item_id product_id line order order' h =
        elim (Bool-cases (is_nonpositive line.quantity)) [
          | inl none_wanted ↦ cc (rw none_wanted at h)
          | inr wanted ↦ elim (Bool-cases (d.less_than_or_equal line.price d.zero)) [
            | inl free ↦ cc (rw (wanted, free) at h)
            | inr priced ↦ sym (ok-injective (rw (wanted, priced) at h))
          ]
        ]

    add_lines-AreAdded :
        (draws : ℕ → ℕ) (lines : List (LineInput Amount)) (i : ℕ) (order order' : Order Amount)
        → ((n : ℕ) → (draws n == 0) ≡ false)
        → add_lines draws i lines order ≡ ok order'
        → (rows : List (OrderItem Amount)) × AreAdded order.id lines rows
          × (order' ≡ record order { items = order.items ++ rows })
    unfolding add_lines
    add_lines-AreAdded draws [] i order order' drawn h = (
      [],
      record { views = refl; stored = tt },
      sym (ok-injective h)
          ∙ ap {A = List (OrderItem Amount)} (λ l. record order { items = l })
              (sym (append-nil order.items)),
    )
    add_lines-AreAdded draws (line ∷ lines) i order order' drawn h =
        let (product_id, is_id, rest) = >>=-eq-ok (new_product_id line.product_id) _ h in
        let (grown, is_grown, rest') =
          >>=-eq-ok (accepted (add (draws i) product_id line.quantity line.price order)) _ rest in
        let (same, filled) = product_id-kept line.product_id product_id is_id in
        let e = add-accepted (draws i) product_id line order grown is_grown in
        let (rows, added, is_order') =
          add_lines-AreAdded draws lines (suc i) grown order' drawn rest' in
        let owner : grown.id ≡ order.id = ap (λ o. o.id) e in
        let row : OrderItem Amount = record {
          id = draws i;
          order_id = order.id;
          product_id = product_id;
          quantity = line.quantity;
          price = line.price;
        } in
        let added' = subst (λ id. AreAdded id lines rows) owner added in
        (
          row ∷ rows,
          record {
            views =
                ap
                  (λ p.
                    record {
                      order_id = order.id;
                      product_id = p;
                      quantity = line.quantity;
                      price = line.price;
                    }
                    ∷ map item_view rows)
                  same
                ∙ ap (λ l. line_view order.id line ∷ l) added'.views;
            stored = (
              record { id = drawn i; owner = refl; product = ap (λ p. p == 0) same ∙ filled },
              added'.stored,
            );
          },
          is_order'
              ∙ (ap {A = Order Amount} (λ o. record o { items = o.items ++ rows }) e
                  ∙ ap {A = List (OrderItem Amount)} (λ l. record order { items = l })
                      (append_assoc order.items (row ∷ []) rows)),
        )

    -- The order that a command describes.
    pub record IsBuilt (order_id : ℕ) (c : CreateOrderCommand Amount) (order : Order Amount)
        : Type 0 where
      pub id : order.id ≡ order_id
      pub storable : IsStorable order
      pub customer : order.customer_id ≡ c.customer_id
      pub status : order.status ≡ pending
      pub shipping : address_of c.shipping_address ≡ ok order.shipping_address
      pub billing : address_of c.billing_address ≡ ok order.billing_address
      pub payment : payment_of c.payment ≡ ok order.payment
      pub views : map item_view order.items ≡ map (line_view order_id) c.items
      pub events : order.events ≡ order_created ∷ []

    pub build_order-IsBuilt :
        (order_id : ℕ) (draws : ℕ → ℕ) (c : CreateOrderCommand Amount) (order : Order Amount)
        → ((n : ℕ) → (draws n == 0) ≡ false)
        → build_order order_id draws c ≡ ok order
        → IsBuilt order_id c order
    unfolding build_order new_order
    build_order-IsBuilt order_id draws c order drawn h =
        let (id, is_id, h1) = >>=-eq-ok (new_order_id order_id) _ h in
        let (customer_id, is_customer, h2) = >>=-eq-ok (new_customer_id c.customer_id) _ h1 in
        let (shipping, is_shipping, h3) = >>=-eq-ok (address_of c.shipping_address) _ h2 in
        let (billing, is_billing, h4) = >>=-eq-ok (address_of c.billing_address) _ h3 in
        let (payment, is_payment, h5) = >>=-eq-ok (payment_of c.payment) _ h4 in
        let (rows, added, e) = add_lines-AreAdded draws c.items 0 _ order drawn h5 in
        let (same_id, id_filled) = order_id-kept order_id id is_id in
        let (same_customer, customer_filled) =
          customer_id-kept c.customer_id customer_id is_customer in
        subst (IsBuilt order_id c) (sym e) (record {
          id = same_id;
          storable = record {
            id = id_filled;
            customer = customer_filled;
            status = unfold is_valid in refl;
            shipping = address_of-IsAddress c.shipping_address shipping is_shipping;
            billing = address_of-IsAddress c.billing_address billing is_billing;
            payment = payment_of-IsPayment c.payment payment is_payment;
            lines = added.stored;
          };
          customer = same_customer;
          status = refl;
          shipping = is_shipping;
          billing = is_billing;
          payment = is_payment;
          views = added.views ∙ ap (λ n. map (line_view n) c.items) same_id;
          events = refl;
        })
