-- ===== src/Ordering/Orders/Checkout/Placed.antt =====
-- internal/ordering/orders/checkout.go: the order that orderFrom returns.
use golang_microservices_eco.Prelude.{
  Fallible-cases, ok-injective, ℕ, suc, ℤ, ◌≡◌, refl, sym, ap, ◌∙◌, true, List, [], ◌∷◌, ◌++◌, map,
  arith, inl, inr, Bool-cases, append_assoc, append-nil, subst, is_nonpositive, ◌==◌, is_blank,
}
use golang_microservices_eco.Platform.Decimal.{Decimal}
use golang_microservices_eco.Platform.Basketv1.{Line, CheckoutSubmitted}
use golang_microservices_eco.Ordering.Domain.Values.{
  Customer, Product, new_product, new_product_id, new_order_id, new_customer_id, new_customer,
  new_payment,
}
use golang_microservices_eco.Ordering.Domain.Status.{pending}
use golang_microservices_eco.Ordering.Domain.Order
use golang_microservices_eco.Ordering.Domain.Order.{
  Order, OrderItem, Event, order_created, new_order, add,
}
use golang_microservices_eco.Ordering.Domain.Order.Invariant.{
  IsValid, add-IsValid, new_order-IsValid,
}
use golang_microservices_eco.Ordering.Orders.Checkout
use golang_microservices_eco.Ordering.Orders.Checkout.{
  Error, Result, ok, err, total_mismatch, new_order_from, total_of, added, add_lines, build,
  order_from, ◌>>=◌, domain, address_of, customer_name,
}

pub customer_id-kept : (value id : ℕ) → domain (new_customer_id value) ≡ ok id → id ≡ value
unfolding new_customer_id
customer_id-kept value id h = ground arith

module _ {Amount : Type 0} ⦃d : Decimal Amount⦄ where
  -- What was bought: the product, how many and at what price.
  abbrev bought : Line Amount → ℕ × ℤ × Amount
  bought line = (line.product_id, line.quantity, line.unit_price)

  abbrev pub ordered : OrderItem Amount → ℕ × ℤ × Amount
  ordered item = (item.product_id, item.quantity, item.price)

  -- An Add that succeeds, and what the line has passed.
  pub add_lines-cons :
      (draws : ℕ → ℕ) (i : ℕ) (line : Line Amount) (lines : List (Line Amount))
      (order : Order Amount) (products : List (Product Amount))
      (r : Order Amount × List (Product Amount))
      → add_lines draws i (line ∷ lines) order products ≡ ok r
      → (product : Product Amount) × (add_lines draws
            (suc i)
            lines
            (add (draws i) line.product_id line.quantity line.unit_price order).0
            (products ++ product ∷ [])
          ≡ ok r)
        × ((add (draws i) line.product_id line.quantity line.unit_price order).0.items
            ≡ order.items
              ++ record {
                id = draws i;
                order_id = order.id;
                product_id = line.product_id;
                quantity = line.quantity;
                price = line.unit_price;
              }
                ∷ [])
        × (product.id ≡ line.product_id)
  unfolding add_lines new_product_id new_product add
  add_lines-cons draws i line lines order products r h = elim (Bool-cases (line.product_id == 0)) [
    | inl empty ↦ cc (rw empty at h)
    | inr id ↦ elim (Bool-cases (is_blank line.product_name)) [
      | inl blank ↦ cc (rw (id, blank) at h)
      | inr named ↦ elim (Bool-cases (d.less_than_or_equal line.unit_price d.zero)) [
        | inl free ↦ cc (rw (id, named, free) at h)
        | inr priced ↦ elim (Bool-cases (is_nonpositive line.quantity)) [
          | inl none_wanted ↦ cc (rw (id, named, priced, none_wanted) at h)
          | inr wanted ↦ (
            record { id = line.product_id; name = line.product_name; price = line.unit_price },
            rw (wanted, priced) (rw (id, named, priced, wanted) at h),
            rw (wanted, priced) refl,
            refl,
          )
        ]
      ]
    ]
  ]

  -- What the loop makes of an order.
  record IsExtended (lines : List (Line Amount)) (order order' : Order Amount) : Type 0 where
    is_valid : IsValid order'
    items : map ordered order'.items ≡ map ordered order.items ++ map bought lines
    status : order'.status ≡ order.status
    customer_id : order'.customer_id ≡ order.customer_id
    events : order'.events ≡ order.events

  add-kept :
      (item_id product_id : ℕ) (quantity : ℤ) (price : Amount) (o : Order Amount)
      → let o' = (add item_id product_id quantity price o).0 in
        (o'.status ≡ o.status) × (o'.customer_id ≡ o.customer_id) × (o'.events ≡ o.events)
  unfolding add
  add-kept item_id product_id quantity price o = ground arith

  map-append :
      (xs ys : List (OrderItem Amount)) → map ordered (xs ++ ys) ≡ map ordered xs ++ map ordered ys
  map-append [] ys = refl
  map-append (x ∷ xs) ys = ap (λ l. ordered x ∷ l) (map-append xs ys)

  add_lines-IsExtended :
      (draws : ℕ → ℕ) (lines : List (Line Amount)) (i : ℕ) (order : Order Amount)
      (products : List (Product Amount)) (r : Order Amount × List (Product Amount))
      → IsValid order
      → add_lines draws i lines order products ≡ ok r
      → IsExtended lines order r.0
  add_lines-IsExtended draws [] i order products r valid h =
      let e : (order, products) ≡ r = unfold add_lines in cc in
      subst (λ p. IsExtended [] order p.0) e
        (record {
          is_valid = valid;
          items = sym (append-nil (map ordered order.items));
          status = refl;
          customer_id = refl;
          events = refl;
        })
  add_lines-IsExtended draws (line ∷ lines) i order products r valid h =
      let (product, later, grown, _) = add_lines-cons draws i line lines order products r h in
      let kept = add-kept (draws i) line.product_id line.quantity line.unit_price order in
      let extended =
        add_lines-IsExtended draws lines (suc i)
          (add (draws i) line.product_id line.quantity line.unit_price order).0
          (products ++ product ∷ []) r
          (add-IsValid (draws i) line.product_id line.quantity line.unit_price order valid) later in
      record {
        is_valid = extended.is_valid;
        items =
            extended.items
            ∙ (ap (λ l. map ordered l ++ map bought lines) grown
                ∙ (ap (λ l. l ++ map bought lines) (map-append order.items _)
                    ∙ append_assoc (map ordered order.items) (bought line ∷ [])
                        (map bought lines)));
        status = extended.status ∙ kept.0;
        customer_id = extended.customer_id ∙ kept.1;
        events = extended.events ∙ kept.2;
      }

  -- The order that a checkout describes.
  pub record IsPlaced (event : CheckoutSubmitted Amount) (order : Order Amount) : Type 0 where
    pub is_valid : IsValid order
    pub items : map ordered order.items ≡ map bought event.items
    pub total : d.equal (Order.total_price order) event.total_price ≡ true
    pub status : order.status ≡ pending
    pub customer_id : order.customer_id ≡ event.customer_id
    pub events : order.events ≡ order_created ∷ []

  -- Both services add up their lines alike.
  total-ordered :
      (total : Amount) (items : List (OrderItem Amount)) (lines : List (Line Amount))
      → map ordered items ≡ map bought lines
      → Order.total_from total items ≡ Checkout.total_from total lines
  unfolding Order.total_from Checkout.total_from
  total-ordered total [] [] h = refl
  total-ordered total [] (line ∷ lines) h = cc
  total-ordered total (item ∷ items) [] h = cc
  total-ordered total (item ∷ items) (line ∷ lines) h =
      let price : item.price ≡ line.unit_price = cc in
      let quantity : item.quantity ≡ line.quantity = cc in
      rw (price, quantity)
        (total-ordered (d.add total (d.mul line.unit_price (d.new_from_int line.quantity))) items
          lines cc)

  -- An order with no lines yet.
  pub record IsNew (customer_id : ℕ) (order : Order Amount) : Type 0 where
    is_valid : IsValid order
    pub items : order.items ≡ []
    status : order.status ≡ pending
    customer : order.customer_id ≡ customer_id
    events : order.events ≡ order_created ∷ []

  pub new_order_from-IsNew :
      (order_id : ℕ) (event : CheckoutSubmitted Amount) (customer_id : ℕ) (order : Order Amount)
      → new_order_from order_id event customer_id ≡ ok order
      → IsNew customer_id order
  unfolding new_order_from
  new_order_from-IsNew order_id event customer_id order h =
      elim (Fallible-cases (domain (new_order_id order_id))) [
        | inl (e, failed) ↦ cc (rw failed at h)
        | inr (id, is_id) ↦ elim (Fallible-cases (address_of event.shipping_address)) [
          | inl (e, failed) ↦ cc (rw (is_id, failed) at h)
          | inr (shipping, is_shipping) ↦ elim (Fallible-cases (address_of event.billing_address)) [
            | inl (e, failed) ↦ cc (rw (is_id, is_shipping, failed) at h)
            | inr (billing, is_billing) ↦
                elim (Fallible-cases (
                  domain (
                    new_payment event.payment.payment_token event.payment.card_last4
                      event.payment.payment_method))) [
                        | inl (e, failed) ↦ cc (rw (is_id, is_shipping, is_billing, failed) at h)
                        | inr (payment, is_payment) ↦
                            let done : ok (new_order id customer_id shipping billing payment)
                                ≡ ok order =
                              rw (is_id, is_shipping, is_billing, is_payment) at h in
                            let e : new_order id customer_id shipping billing payment ≡ order =
                              cc in
                            subst (IsNew customer_id) e (record {
                              is_valid = new_order-IsValid id customer_id shipping billing payment;
                              items = unfold new_order in refl;
                              status = unfold new_order in refl;
                              customer = unfold new_order in refl;
                              events = unfold new_order in refl;
                            })
                      ]
          ]
        ]
      ]

  build-IsExtended :
      (order_id : ℕ) (draws : ℕ → ℕ) (event : CheckoutSubmitted Amount) (order : Order Amount)
      (customer : Customer) (products : List (Product Amount))
      → build order_id draws event ≡ ok (order, customer, products)
      → (start : Order Amount) × IsNew event.customer_id start × IsExtended event.items start order
  unfolding build
  build-IsExtended order_id draws event order customer products h =
      elim (Fallible-cases (domain (new_customer_id event.customer_id))) [
        | inl (e, failed) ↦ cc (rw failed at h)
        | inr (id, is_id) ↦
            elim (Fallible-cases (
              domain
                (new_customer id (customer_name event) event.shipping_address.email_address))) [
                  | inl (e, failed) ↦ cc (rw (is_id, failed) at h)
                  | inr (buyer, is_buyer) ↦
                      elim (Fallible-cases (new_order_from order_id event id)) [
                        | inl (e, failed) ↦ cc (rw (is_id, is_buyer, failed) at h)
                        | inr (start, is_start) ↦
                            elim (Fallible-cases (add_lines draws 0 event.items start [])) [
                              | inl (e, failed) ↦ cc (rw (is_id, is_buyer, is_start, failed) at h)
                              | inr (r, is_r) ↦
                                  let new = new_order_from-IsNew order_id event id start is_start in
                                  let done : ok (r.0, buyer, r.1) ≡ ok (order, customer, products) =
                                    rw (is_id, is_buyer, is_start, is_r) at h in
                                  let e : r.0 ≡ order = ap (λ p. p.0) (ok-injective done) in
                                  (
                                    start,
                                    subst (λ n. IsNew n start)
                                        (customer_id-kept event.customer_id id is_id) new,
                                    subst (IsExtended event.items start) e (
                                        add_lines-IsExtended draws event.items 0 start [] r
                                          new.is_valid is_r),
                                  )
                            ]
                      ]
                ]
      ]

  pub order_from-ok :
      (order_id : ℕ) (draws : ℕ → ℕ) (event : CheckoutSubmitted Amount) (order : Order Amount)
      (customer : Customer) (products : List (Product Amount))
      → order_from order_id draws event ≡ ok (order, customer, products)
      → (d.equal (total_of event.items) event.total_price ≡ true)
        × (build order_id draws event ≡ ok (order, customer, products))
  unfolding order_from
  order_from-ok order_id draws event order customer products h = ground arith

  -- A checkout that is accepted becomes a valid, pending order of the customer that has announced
  -- its creation, with exactly the lines of the checkout, in order and at their prices, and with a
  -- total that equals the total that was announced.
  pub order_from-IsPlaced :
      (order_id : ℕ) (draws : ℕ → ℕ) (event : CheckoutSubmitted Amount) (order : Order Amount)
      (customer : Customer) (products : List (Product Amount))
      → order_from order_id draws event ≡ ok (order, customer, products)
      → IsPlaced event order
  unfolding Order.total_price total_of
  order_from-IsPlaced order_id draws event order customer products h =
      let (agrees, built) = order_from-ok order_id draws event order customer products h in
      let (start, new, extended) =
        build-IsExtended order_id draws event order customer products built in
      let items = extended.items ∙ ap (λ l. map ordered l ++ map bought event.items) new.items in
      record {
        is_valid = extended.is_valid;
        items = items;
        total =
            ap (λ t. d.equal t event.total_price)
              (total-ordered d.zero order.items event.items items)
            ∙ agrees;
        status = extended.status ∙ new.status;
        customer_id = extended.customer_id ∙ new.customer;
        events = extended.events ∙ new.events;
      }
