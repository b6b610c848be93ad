-- ===== src/Ordering/Repository/Resaved.antt =====
-- internal/ordering/mssql/repository.go: Save of an order whose lines may be stored already.
use golang_microservices_eco.Prelude.{
  ℕ, ◌==◌, ◌≡◌, refl, true, false, Option, none, [], ◌∷◌, All, Fallible, ok, keep, negate, some,
}
use golang_microservices_eco.Platform.Messaging.{Envelope, EnvelopeError}
use golang_microservices_eco.Ordering.Domain.Order.{Order, Event, pull_events}
use golang_microservices_eco.Ordering.Tables.{Tables, has}
use golang_microservices_eco.Ordering.Tables.Merge.{IsKeyed}
use golang_microservices_eco.Ordering.Repository.{
  Server, Statement, begin, commit, save, in_tx, finish,
}
use golang_microservices_eco.Ordering.Repository.Saved.Complete.{IsSaved, save_order-IsSaved}
use golang_microservices_eco.Ordering.Repository.Works.{save_order-works}

module _ {Amount : Type 0} (server : Server Amount)
    (map_event : Order Amount → ℕ → Event → Fallible EnvelopeError (Option Envelope)) where
  -- Where the database takes every statement and every price, Save of an order goes through and
  -- saves it completely, if its customer and its products are known, its lines have ids of their own
  -- that no line of another order has, it has raised one event, that event can be mapped, and the
  -- announcement's id is new. The order and its lines may be stored already: they are replaced.
  pub save-works :
      (now : ℕ) (order : Order Amount) (event : Event) (envelope : Option Envelope)
      (db : Tables Amount)
      → ((s : Statement Amount) → server.fails s ≡ false)
      → ((a : Amount) → (p : Amount) × (server.column a ≡ some p))
      → has (λ c. c.id) order.customer_id db.customers ≡ true
      → All (λ item. has (λ p. p.id) item.product_id db.products ≡ true) order.items
      → All
          (λ item.
            has (λ l. l.id) item.id (keep (λ l. negate (l.order_id == order.id)) db.order_items)
            ≡ false)
          order.items
      → IsKeyed (λ l. l.id) order.items
      → order.events ≡ event ∷ []
      → map_event order 0 event ≡ ok envelope
      → ((e : Envelope) → envelope ≡ some e → has (λ m. m.id) e.id db.outbox_messages ≡ false)
      → (after : Tables Amount) × (save server map_event now order db
          ≡ (none, record order { events = [] }, after))
        × IsSaved server map_event now order db after
  unfolding save in_tx finish pull_events
  save-works now order event envelope db works takes buyer known fresh keyed raised maps new =
      let (after, saved) =
        save_order-works server works takes map_event now order event envelope db buyer
          (record { fresh = fresh; keyed = keyed; known = known }) raised maps new in
      (
        after,
        rw (works begin, saved, works commit) refl,
        save_order-IsSaved server map_event now order db after saved,
      )
