-- ===== src/Ordering/Repository/Works.antt =====
-- internal/ordering/mssql/repository.go: Place where the database takes every statement.
use golang_microservices_eco.Prelude.{
  ℕ, ◌==◌, ◌≡◌, refl, ap, ◌∙◌, arith, Bool-cases, true, false, inl, inr, Option, none, some, List,
  [], ◌∷◌, ◌++◌, All, All-map, All-both, Fallible, ok, keep, negate,
}
use golang_microservices_eco.Platform.Messaging.{Envelope, EnvelopeError}
use golang_microservices_eco.Ordering.Domain.Values.{Customer, Product}
use golang_microservices_eco.Ordering.Domain.Order.{
  OrderItem, Order, Event, order_created, pull_events,
}
use golang_microservices_eco.Ordering.Rows.{order_row}
use golang_microservices_eco.Ordering.Tables.{Tables, has, merge}
use golang_microservices_eco.Ordering.Tables.Merge.{IsKeyed, has-append, has-keep, merge-has}
use golang_microservices_eco.Ordering.Repository.{
  Server, Statement, record_customer, commit, begin, save_customer, upsert_order, clear, insert_row,
  insert_order_item, insert_order_items, insert_outbox_message, stage, stage_events, save_order,
  place_order, place, in_tx, finish,
}
use golang_microservices_eco.Ordering.Repository.Saved.Complete.{
  IsSaved, save_order-IsSaved, updated,
}
use golang_microservices_eco.Ordering.Repository.Stocked.{add_products-works}

-- The rows behind one with a key of its own have other keys.
has-All :
    {A : Type 0} (id : A → ℕ) (key : ℕ) (rows : List A)
    → has id key rows ≡ false
    → All (λ row. (id row == key) ≡ false) rows
unfolding has
has-All id key [] h = tt
has-All id key (row ∷ rows) h = elim (Bool-cases (id row == key)) [
  | inl here ↦ cc (rw here at h)
  | inr other ↦ (other, has-All id key rows (rw other at h))
]

-- What every key of one list has is had by the key of each row that the list knows.
has-All-through :
    {A : Type 0} (id : A → ℕ) (key : ℕ) (rows others : List A)
    → All (λ row. has id (id row) others ≡ true) rows
    → has id key rows ≡ true
    → has id key others ≡ true
unfolding has
has-All-through id key [] others all h = cc
has-All-through id key (row ∷ rows) others all h = elim (Bool-cases (id row == key)) [
  | inl here ↦ let e : id row ≡ key = ground arith in rw (← e) (all.0)
  | inr other ↦ has-All-through id key rows others all.1 (rw other at h)
]

module _ {Amount : Type 0} where
  -- The lines can be inserted: their ids are new and differ, and their products are known.
  pub record AreNew (items : List (OrderItem Amount)) (db : Tables Amount) : Type 0 where
    pub fresh : All (λ item. has (λ l. l.id) item.id db.order_items ≡ false) items
    pub keyed : IsKeyed (λ l. l.id) items
    pub known : All (λ item. has (λ p. p.id) item.product_id db.products ≡ true) items

  module _ (server : Server Amount) (works : (s : Statement Amount) → server.fails s ≡ false)
      (takes : (a : Amount) → (p : Amount) × (server.column a ≡ some p)) where
    insert_order_items-works :
        (order_id : ℕ) (items : List (OrderItem Amount)) (db : Tables Amount)
        → has (λ r. r.id) order_id db.orders ≡ true
        → AreNew items db
        → (after : Tables Amount) × (insert_order_items server order_id items db ≡ ok after)
          × (after.outbox_messages ≡ db.outbox_messages)
    unfolding insert_order_items insert_order_item insert_row
    insert_order_items-works order_id [] db there new = (db, refl, refl)
    insert_order_items-works order_id (item ∷ items) db there new =
        let (price, taken) = takes item.price in
        let row : OrderItem Amount = record item { order_id = order_id; price = price } in
        let db' : Tables Amount = record db { order_items = db.order_items ++ row ∷ [] } in
        let (after, done, messages) = insert_order_items-works order_id items db' there (record {
          fresh =
              All-both (λ i. has (λ l. l.id) i.id db.order_items ≡ false)
                (λ i. (i.id == item.id) ≡ false) (λ i. has (λ l. l.id) i.id db'.order_items ≡ false)
                items
                (λ i new_id other.
                  has-append (λ l. l.id) i.id db.order_items row ∙ rw new_id (ground arith))
                new.fresh.1 (has-All (λ l. l.id) item.id items new.keyed.0);
          keyed = new.keyed.1;
          known = new.known.1;
        }) in
        (after, rw (works, taken, new.fresh.0, there, new.known.0) done, messages)

    module _ (map_event : Order Amount → ℕ → Event → Fallible EnvelopeError (Option Envelope)) where
      stage-works :
          (envelope : Option Envelope) (db : Tables Amount)
          → ((e : Envelope) → envelope ≡ some e → has (λ m. m.id) e.id db.outbox_messages ≡ false)
          → (after : Tables Amount) × (stage server envelope db ≡ ok after)
      unfolding insert_outbox_message
      stage-works none db new = (db, refl)
      stage-works (some envelope) db new = (
        record db { outbox_messages = db.outbox_messages ++ envelope ∷ [] },
        rw (works, new envelope refl) refl,
      )

      stage_events-works :
          (order : Order Amount) (events : List Event) (event : Event) (envelope : Option Envelope)
          (db : Tables Amount)
          → events ≡ event ∷ []
          → map_event order 0 event ≡ ok envelope
          → ((e : Envelope) → envelope ≡ some e → has (λ m. m.id) e.id db.outbox_messages ≡ false)
          → (after : Tables Amount) × (stage_events server map_event order 0 events db ≡ ok after)
      unfolding stage_events
      stage_events-works order events event envelope db created maps new =
          let (after, staged) = stage-works envelope db new in
          (after, rw created (rw maps (rw staged refl)))

      upsert_order-works :
          (now : ℕ) (order : Order Amount) (db : Tables Amount)
          → has (λ c. c.id) order.customer_id db.customers ≡ true
          → upsert_order server now order db
            ≡ ok (record db {
              orders =
                  merge
                    (λ r. r.id)
                    (updated server map_event now order)
                    (order_row now order)
                    db.orders;
            })
      unfolding upsert_order order_row
      upsert_order-works now order db buyer = rw (works, buyer) refl

      clear-works :
          (order_id : ℕ) (db : Tables Amount)
          → clear server order_id db
            ≡ ok (record db {
              order_items = keep (λ l. negate (l.order_id == order_id)) db.order_items;
            })
      unfolding clear
      clear-works order_id db = rw works refl

      -- Its lines may replace those that the order had.
      pub save_order-works :
          (now : ℕ) (order : Order Amount) (event : Event) (envelope : Option Envelope)
          (db : Tables Amount)
          → has (λ c. c.id) order.customer_id db.customers ≡ true
          → AreNew order.items (record db {
            order_items = keep (λ l. negate (l.order_id == order.id)) db.order_items;
          })
          → order.events ≡ event ∷ []
          → map_event order 0 event ≡ ok envelope
          → ((e : Envelope) → envelope ≡ some e → has (λ m. m.id) e.id db.outbox_messages ≡ false)
          → (after : Tables Amount) × (save_order server map_event now order db ≡ ok after)
      unfolding save_order order_row
      save_order-works now order event envelope db buyer new created maps fresh =
          let db' : Tables Amount = record db {
            orders =
                merge (λ r. r.id) (updated server map_event now order) (order_row now order)
                  db.orders;
            order_items = keep (λ l. negate (l.order_id == order.id)) db.order_items;
          } in
          let there : has (λ r. r.id) order.id db'.orders ≡ true =
            merge-has (λ r. r.id) (updated server map_event now order) (order_row now order)
              db.orders (λ _ _. refl) in
          let (filled, inserted, messages) =
            insert_order_items-works order.id order.items db' there
              (record { fresh = new.fresh; keyed = new.keyed; known = new.known }) in
          let (after, staged) =
            stage_events-works order order.events event envelope filled created maps
              (λ e k. ap (has (λ m. m.id) e.id) messages ∙ fresh e k) in
          (
            after,
            rw (upsert_order-works now order db buyer, clear-works order.id _, inserted) staged,
          )

      -- A placement of an order of this customer and of these products, whose lines and announcement
      -- have ids that are new, goes through.
      pub place-works :
          (now : ℕ) (order : Order Amount) (customer : Customer) (products : List (Product Amount))
          (envelope : Option Envelope) (db : Tables Amount)
          → customer.id ≡ order.customer_id
          → All (λ item. has (λ p. p.id) item.product_id products ≡ true) order.items
          → All (λ item. has (λ l. l.id) item.id db.order_items ≡ false) order.items
          → IsKeyed (λ l. l.id) order.items
          → order.events ≡ order_created ∷ []
          → map_event order 0 order_created ≡ ok envelope
          → ((e : Envelope) → envelope ≡ some e → has (λ m. m.id) e.id db.outbox_messages ≡ false)
          → (stocked after : Tables Amount) × (place server map_event now order customer products db
              ≡ (none, record order { events = [] }, after))
            × IsSaved server map_event now order stocked after
      unfolding place place_order in_tx finish pull_events save_customer
      place-works now order customer products envelope db buyer covers fresh keyed created maps
            new =
          let known : Tables Amount = record db {
            customers = merge (λ c. c.id) (λ _. customer) customer db.customers;
          } in
          let (stocked, added, s) = add_products-works server works takes products [] known tt in
          let here : has (λ c. c.id) order.customer_id stocked.customers ≡ true =
            ap (λ l. has (λ c. c.id) order.customer_id l) s.customers
            ∙ rw (← buyer)
                (merge-has (λ c. c.id) (λ _. customer) customer db.customers (λ _ _. refl)) in
          let (after, saved) =
            save_order-works now order order_created envelope stocked here
              (record {
                fresh =
                    All-map _ _ order.items
                      (λ i h.
                        has-keep (λ l. l.id) i.id (λ l. negate (l.order_id == order.id))
                          stocked.order_items (ap (λ l. has (λ r. r.id) i.id l) s.lines ∙ h))
                      fresh;
                keyed = keyed;
                known =
                    All-map _ _ order.items
                      (λ i h.
                        has-All-through (λ p. p.id) i.product_id products stocked.products s.there
                          h)
                      covers;
              })
              created maps (λ e k. ap (λ l. has (λ m. m.id) e.id l) s.messages ∙ new e k) in
          (
            stocked,
            after,
            rw (works begin, works (record_customer customer), added, saved, works commit) refl,
            save_order-IsSaved server map_event now order stocked after saved,
          )
