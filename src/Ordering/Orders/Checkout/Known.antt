-- ===== src/Ordering/Orders/Checkout/Known.antt =====
-- internal/ordering/orders/checkout.go: the customer and the products that orderFrom returns beside
-- the order.
use golang_microservices_eco.Prelude.{
  ℕ, suc, ◌≡◌, sym, ap, ◌∙◌, subst, arith, true, Bool-cases, inl, inr, List, [], ◌∷◌, ◌++◌, All,
  All-append, All-map, ok-injective, >>=-eq-ok,
}
use golang_microservices_eco.Platform.Decimal.{Decimal}
use golang_microservices_eco.Platform.Basketv1.{Line, CheckoutSubmitted}
use golang_microservices_eco.Ordering.Domain.Values.{
  Customer, Product, new_customer, new_customer_id,
}
use golang_microservices_eco.Ordering.Domain.Order.{OrderItem, Order, add}
use golang_microservices_eco.Ordering.Tables.{has}
use golang_microservices_eco.Ordering.Tables.Merge.{has-append, has-append-old}
use golang_microservices_eco.Ordering.Orders.Checkout.{
  ok, domain, customer_name, new_order_from, add_lines, build, order_from,
}
use golang_microservices_eco.Ordering.Orders.Checkout.Placed.{
  add_lines-cons, new_order_from-IsNew, customer_id-kept, order_from-ok, order_from-IsPlaced,
}

customer-kept :
    (id : ℕ) (name email : _) (customer : Customer)
    → domain (new_customer id name email) ≡ ok customer
    → customer.id ≡ id
unfolding new_customer
customer-kept id name email customer h = ground arith

module _ {Amount : Type 0} where
  -- Every line is of one of the products.
  abbrev pub Covers : List (Product Amount) → List (OrderItem Amount) → Type 0
  Covers products = All (λ item. has (λ p. p.id) item.product_id products ≡ true)

  Covers-append :
      (products : List (Product Amount)) (items : List (OrderItem Amount))
      (product : Product Amount) (item : OrderItem Amount)
      → Covers products items
      → product.id ≡ item.product_id
      → Covers (products ++ product ∷ []) (items ++ item ∷ [])
  Covers-append products items product item covers same =
      All-append _ items (item ∷ [])
        (All-map _ _ items (λ i h. has-append-old (λ p. p.id) i.product_id products product h)
          covers)
        (
          elim (Bool-cases (has (λ p. p.id) item.product_id products)) [
            | inl known ↦ has-append-old (λ p. p.id) item.product_id products product known
            | inr new ↦
                has-append (λ p. p.id) item.product_id products product
                ∙ rw (new, same) (ground arith)
          ],
          tt,
        )

module _ {Amount : Type 0} ⦃d : Decimal Amount⦄ where
  add_lines-Covers :
      (draws : ℕ → ℕ) (lines : List (Line Amount)) (i : ℕ) (order : Order Amount)
      (products : List (Product Amount)) (r : Order Amount × List (Product Amount))
      → Covers products order.items
      → add_lines draws i lines order products ≡ ok r
      → Covers r.1 r.0.items
  add_lines-Covers draws [] i order products r covers h =
      let e : (order, products) ≡ r = unfold add_lines in cc in
      subst (λ p. Covers p.1 p.0.items) e covers
  add_lines-Covers draws (line ∷ lines) i order products r covers h =
      let (product, later, grown, same) = add_lines-cons draws i line lines order products r h in
      add_lines-Covers draws lines (suc i)
        (add (draws i) line.product_id line.quantity line.unit_price order).0
        (products ++ product ∷ []) r
        (subst (Covers (products ++ product ∷ [])) (sym grown)
          (Covers-append products order.items product _ covers same))
        later

  -- The order is of the customer that is returned, and of products that are returned.
  pub order_from-Covers :
      (order_id : ℕ) (draws : ℕ → ℕ) (event : CheckoutSubmitted Amount) (order : Order Amount)
      (customer : Customer) (products : List (Product Amount))
      → order_from order_id draws event ≡ ok (order, customer, products)
      → (customer.id ≡ order.customer_id) × Covers products order.items
  unfolding build
  order_from-Covers order_id draws event order customer products h =
      let (_, built) = order_from-ok order_id draws event order customer products h in
      let (id, is_id, h1) = >>=-eq-ok (domain (new_customer_id event.customer_id)) _ built in
      let (buyer, is_buyer, h2) =
        >>=-eq-ok
          (domain (new_customer id (customer_name event) event.shipping_address.email_address)) _
          h1 in
      let (start, is_start, h3) = >>=-eq-ok (new_order_from order_id event id) _ h2 in
      let (r, is_r, done) = >>=-eq-ok (add_lines draws 0 event.items start []) _ h3 in
      let new = new_order_from-IsNew order_id event id start is_start in
      let e : (r.0, buyer, r.1) ≡ (order, customer, products) = ok-injective done in
      let covers =
        add_lines-Covers draws event.items 0 start [] r (subst (Covers []) (sym new.items) tt)
          is_r in
      let placed = order_from-IsPlaced order_id draws event order customer products h in
      let same : buyer ≡ customer = ap (λ p. p.1) e in
      (
        ap (λ c. c.id) (sym same)
            ∙ (customer-kept id (customer_name event) event.shipping_address.email_address buyer
                  is_buyer
                ∙ (customer_id-kept event.customer_id id is_id ∙ sym placed.customer_id)),
        subst (λ p. Covers p.2 p.0.items) e covers,
      )
