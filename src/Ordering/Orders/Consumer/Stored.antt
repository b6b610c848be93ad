-- ===== src/Ordering/Orders/Consumer/Stored.antt =====
-- internal/ordering/orders/checkout.go with Place of internal/ordering/mssql/repository.go: what
-- becomes of a message that describes an order.
use golang_microservices_eco.Prelude.{
  ℕ, ◌≡◌, refl, ap, ◌∙◌, false, List, All, Option, none, some, Fallible, ok,
}
use golang_microservices_eco.Platform.Decimal.{Decimal}
use golang_microservices_eco.Platform.Messaging.{Envelope, EnvelopeError}
use golang_microservices_eco.Platform.Basketv1.{CheckoutSubmitted}
use golang_microservices_eco.Ordering.Domain.Values.{Customer, Product}
use golang_microservices_eco.Ordering.Domain.Order.{OrderItem, Order, Event, order_created}
use golang_microservices_eco.Ordering.Tables.{Tables, has}
use golang_microservices_eco.Ordering.Tables.Merge.{IsKeyed}
use golang_microservices_eco.Ordering.Repository.{Server, Statement, place}
use golang_microservices_eco.Ordering.Repository.Saved.Complete.{IsSaved}
use golang_microservices_eco.Ordering.Repository.Works.{place-works}
use golang_microservices_eco.Ordering.Orders.Checkout
use golang_microservices_eco.Ordering.Orders.Checkout.{order_from}
use golang_microservices_eco.Ordering.Orders.Checkout.Known.{order_from-Covers}
use golang_microservices_eco.Ordering.Orders.Checkout.Placed.{IsPlaced, order_from-IsPlaced}
use golang_microservices_eco.Ordering.Orders.Consumer.{handle, read_order, place_read}

-- The ids that are drawn for an order and its announcement are not in use.
pub record AreFresh {Amount : Type 0} (items : List (OrderItem Amount)) (envelope : Option Envelope)
    (db : Tables Amount) : Type 0 where
  pub lines : All (λ item. has (λ l. l.id) item.id db.order_items ≡ false) items
  pub keyed : IsKeyed (λ l. l.id) items
  pub message : (e : Envelope) → envelope ≡ some e → has (λ m. m.id) e.id db.outbox_messages ≡ false

module _ {Amount : Type 0} ⦃d : Decimal Amount⦄
    (decode : List ℕ → Option (CheckoutSubmitted Amount)) (server : Server Amount)
    (map_event : Order Amount → ℕ → Event → Fallible EnvelopeError (Option Envelope)) where
  read_order-accepted :
      (order_id : ℕ) (draws : ℕ → ℕ) (envelope : Envelope) (event : CheckoutSubmitted Amount)
      (result : Order Amount × Customer × List (Product Amount))
      → decode envelope.payload ≡ some event
      → order_from order_id draws event ≡ Checkout.ok result
      → read_order decode order_id draws envelope ≡ ok result
  unfolding read_order
  read_order-accepted order_id draws envelope event result decoded accepted =
      rw (read_order, decoded, accepted) refl

  place_read-done :
      (now : ℕ) (order placed : Order Amount) (customer : Customer)
      (products : List (Product Amount)) (db after : Tables Amount)
      → place server map_event now order customer products db ≡ (none, placed, after)
      → place_read server map_event now (ok (order, customer, products)) db ≡ (none, after)
  unfolding place_read
  place_read-done now order placed customer products db after done = rw done refl

  -- Where a message decodes to a checkout that is accepted, the database takes every statement and
  -- every price, the creation of the order can be mapped, and the drawn ids are new, handling the
  -- message reports no error and completely saves an order as the checkout describes it.
  pub handle-IsSaved :
      (now order_id : ℕ) (draws : ℕ → ℕ) (envelope : Envelope) (db : Tables Amount)
      (event : CheckoutSubmitted Amount) (order : Order Amount) (customer : Customer)
      (products : List (Product Amount)) (announcement : Option Envelope)
      → ((s : Statement Amount) → server.fails s ≡ false)
      → ((a : Amount) → (p : Amount) × (server.column a ≡ some p))
      → decode envelope.payload ≡ some event
      → order_from order_id draws event ≡ Checkout.ok (order, customer, products)
      → map_event order 0 order_created ≡ ok announcement
      → AreFresh order.items announcement db
      → (stocked after : Tables Amount) × (handle server map_event decode now order_id draws
            envelope db
          ≡ (none, after))
        × IsSaved server map_event now order stocked after
        × IsPlaced event order
  unfolding handle
  handle-IsSaved now order_id draws envelope db event order customer products announcement works
        takes decoded accepted maps fresh =
      let placed = order_from-IsPlaced order_id draws event order customer products accepted in
      let (buyer, covers) =
        order_from-Covers order_id draws event order customer products accepted in
      let (stocked, after, done, s) =
        place-works server works takes map_event now order customer products announcement db buyer
          covers fresh.lines fresh.keyed placed.events maps fresh.message in
      (
        stocked,
        after,
        ap (λ r. place_read server map_event now r db)
              (read_order-accepted order_id draws envelope event (order, customer, products) decoded
                accepted)
            ∙ place_read-done now order _ customer products db after done,
        s,
        placed,
      )
