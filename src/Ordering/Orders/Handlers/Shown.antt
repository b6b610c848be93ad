-- ===== src/Ordering/Orders/Handlers/Shown.antt =====
-- internal/ordering/orders: GetOrderByID on what CreateOrder has stored.
use mathlib.Core.List.{Perm}
use mathlib.Core.List.Perm
use golang_microservices_eco.Prelude.{
  ℕ, ◌==◌, ◌≡◌, refl, sym, ap, ◌∙◌, subst, false, inl, inr, Option, none, some, List, [], ◌∷◌, map,
  All, Fallible, Fallible-cases, ok, ok-injective,
}
use golang_microservices_eco.Platform.Decimal.{Decimal}
use golang_microservices_eco.Platform.Messaging.{Envelope, EnvelopeError}
use golang_microservices_eco.Ordering.Domain.Values.{
  is_zero, new_order_id, new_payment, new_payment-ok,
}
use golang_microservices_eco.Ordering.Domain.Status.{status_string}
use golang_microservices_eco.Ordering.Domain.Order.{OrderItem, Order, Event}
use golang_microservices_eco.Ordering.Tables.{Tables, sort}
use golang_microservices_eco.Ordering.Tables.Sort.{sort-Perm}
use golang_microservices_eco.Ordering.Repository
use golang_microservices_eco.Ordering.Repository.{Server, save, select_order, select_lines}
use golang_microservices_eco.Ordering.Repository.Reads.{by_id, by_line_id}
use golang_microservices_eco.Ordering.Repository.Reads.Roundtrip.{KeepsPrices, by_id-save}
use golang_microservices_eco.Ordering.Rows.Reading.{new_payment-is_zero}
use golang_microservices_eco.Ordering.Orders.Views.{OrderView, item_view, payment_view, view_of}
use golang_microservices_eco.Ordering.Orders.Handlers.{
  LineInput, CreateOrderCommand, address_of, payment_of, answer, build_order, save_made,
  create_order, get_order_by_id,
}
use golang_microservices_eco.Ordering.Orders.Handlers.Created.{
  line_view, IsBuilt, build_order-IsBuilt,
}

answer-ok :
    {A : Type 0} (a b : A) (failure : Option Repository.Error)
    → answer a failure ≡ ok b
    → (failure ≡ none) × (a ≡ b)
answer-ok a b none h = (refl, ok-injective h)
answer-ok a b (some e) h = cc

module _ {Amount : Type 0} where
  -- A view of the order that a command describes.
  pub record IsShown (order_id : ℕ) (c : CreateOrderCommand Amount) (view : OrderView Amount)
      : Type 0 where
    pub id : view.id ≡ order_id
    pub customer : view.customer_id ≡ c.customer_id
    pub status : view.status ≡ "Pending"
    pub shipping : address_of c.shipping_address ≡ ok view.shipping_address
    pub billing : address_of c.billing_address ≡ ok view.billing_address
    pub payment :
        view.payment
        ≡ some (record {
          card_last4 = c.payment.card_last4;
          payment_method = c.payment.payment_method;
        })
    pub items : Perm view.items (map (line_view order_id) c.items)

  prices-kept :
      (server : Server Amount) (order_id : ℕ) (items : List (OrderItem Amount))
      (lines : List (LineInput Amount))
      → map item_view items ≡ map (line_view order_id) lines
      → All (λ line. server.column line.price ≡ some line.price) lines
      → KeepsPrices server items
  prices-kept server order_id [] lines h all = tt
  prices-kept server order_id (item ∷ items) [] h all = cc
  prices-kept server order_id (item ∷ items) (line ∷ lines) h all =
      let e : item.price ≡ line.price = cc in
      (rw e (all.0), prices-kept server order_id items lines (cc) all.1)

  module _ ⦃d : Decimal Amount⦄ (server : Server Amount)
      (map_event : Order Amount → ℕ → Event → Fallible EnvelopeError (Option Envelope))
      (reading : Server Amount) where
    filled :
        (order_id : ℕ) (c : CreateOrderCommand Amount) (order : Order Amount)
        → IsBuilt order_id c order
        → is_zero order.payment ≡ false
    unfolding payment_of
    filled order_id c order b =
        let e =
          new_payment-ok c.payment.payment_token c.payment.card_last4 c.payment.payment_method
            order.payment b.payment in
        new_payment-is_zero order.payment (
          subst (λ q. new_payment q.payment_token q.card_last4 q.payment_method ≡ ok order.payment)
            (sym e) b.payment)

    payment-shown :
        (order_id : ℕ) (c : CreateOrderCommand Amount) (order : Order Amount)
        → IsBuilt order_id c order
        → payment_view order.payment
          ≡ some (record {
            card_last4 = c.payment.card_last4;
            payment_method = c.payment.payment_method;
          })
    unfolding payment_view
    payment-shown order_id c order b =
        let e =
          new_payment-ok c.payment.payment_token c.payment.card_last4 c.payment.payment_method
            order.payment (unfold payment_of in b.payment) in
        rw (filled order_id c order b) (
          ap (λ p. some (record { card_last4 = p.card_last4; payment_method = p.payment_method }))
            e)

    view_of-IsShown :
        (order_id : ℕ) (c : CreateOrderCommand Amount) (order : Order Amount)
        → IsBuilt order_id c order
        → IsShown order_id c
            (view_of (record order { events = []; items = sort (by_line_id reading) order.items }))
    unfolding view_of
    view_of-IsShown order_id c order b = record {
      id = b.id;
      customer = b.customer;
      status = ap status_string b.status ∙ unfold status_string in refl;
      shipping = b.shipping;
      billing = b.billing;
      payment = payment-shown order_id c order b;
      items =
          subst (λ l. Perm (map item_view (sort (by_line_id reading) order.items)) l) b.views
            (Perm.map item_view (sort-Perm (by_line_id reading) order.items));
    }

    get_order-of :
        (order_id : ℕ) (order : Order Amount) (db : Tables Amount)
        → (order_id == 0) ≡ false
        → by_id reading order_id db ≡ ok order
        → get_order_by_id reading order_id db ≡ ok (view_of order)
    unfolding get_order_by_id new_order_id
    get_order-of order_id order db h found = rw (h, found) refl

    create_order-ok :
        (now order_id : ℕ) (draws : ℕ → ℕ) (c : CreateOrderCommand Amount) (db : Tables Amount)
        (id : ℕ)
        → (create_order server map_event now order_id draws c db).0 ≡ ok id
        → (order : Order Amount) × (build_order order_id draws c ≡ ok order)
          × ((save server map_event now order db).0 ≡ none)
          × (order.id ≡ id)
          × ((create_order server map_event now order_id draws c db).1
              ≡ (save server map_event now order db).2)
    unfolding create_order save_made
    create_order-ok now order_id draws c db id h =
        elim (Fallible-cases (build_order order_id draws c)) [
          | inl (e, failed) ↦ cc (rw failed at h)
          | inr (order, built) ↦
              let (went_through, same) = answer-ok order.id id _ (rw built at h) in
              (order, built, went_through, same, rw built refl)
        ]

    -- Where creating an order reports its id, the ids that are drawn for its lines are not nil, the
    -- column holds the prices as they are and the two queries of reading the order do not fail,
    -- reading the order with that id shows it: the drawn id, the customer, the addresses and the
    -- lines of the command, in some order, the status Pending, and of the payment the last four
    -- digits and the method.
    pub get_order_by_id-create_order :
        (now order_id : ℕ) (draws : ℕ → ℕ) (c : CreateOrderCommand Amount) (db : Tables Amount)
        (id : ℕ)
        → ((n : ℕ) → (draws n == 0) ≡ false)
        → All (λ line. server.column line.price ≡ some line.price) c.items
        → (create_order server map_event now order_id draws c db).0 ≡ ok id
        → reading.fails (select_order order_id) ≡ false
        → reading.fails (select_lines order_id) ≡ false
        → (id ≡ order_id)
          × ((view : OrderView Amount) × (get_order_by_id reading id
                  (create_order server map_event now order_id draws c db).1
                ≡ ok view)
              × IsShown order_id c view)
    get_order_by_id-create_order now order_id draws c db id drawn prices h order_read lines_read =
        let (order, built, went_through, same, is_after) =
          create_order-ok now order_id draws c db id h in
        let b = build_order-IsBuilt order_id draws c order drawn built in
        let shown = record order { events = []; items = sort (by_line_id reading) order.items } in
        let read =
          (by_id-save server map_event reading now order db b.storable
            (prices-kept server order_id order.items c.items b.views prices) went_through
            (rw (b.id) order_read) (rw (b.id) lines_read)).0 in
        (
          sym same ∙ b.id,
          (
            view_of shown,
            subst
                (λ n.
                  get_order_by_id reading n
                    (create_order server map_event now order_id draws c db).1
                  ≡ ok (view_of shown))
                same
                (ap (get_order_by_id reading order.id) is_after
                  ∙ get_order-of order.id shown (save server map_event now order db).2 b.storable.id
                      read),
            view_of-IsShown order_id c order b,
          ),
        )
