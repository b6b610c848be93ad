-- ===== src/Ordering/Repository/Integrity/Calls.antt =====
-- internal/ordering/mssql/repository.go: whole calls on the keys and references of the tables.
use golang_microservices_eco.Prelude.{
  ℕ, suc, ◌≡◌, arith, List, [], ◌∷◌, Fallible, ok, ok-injective, >>=-eq-ok, Option, subst,
}
use golang_microservices_eco.Platform.Messaging.{Envelope, EnvelopeError}
use golang_microservices_eco.Ordering.Domain.Values.{Customer, Product}
use golang_microservices_eco.Ordering.Domain.Order.{Order, Event}
use golang_microservices_eco.Ordering.Tables.{Tables}
use golang_microservices_eco.Ordering.Repository.{
  Server, save_customer, add_products, upsert_order, insert_order_items, stage, stage_events,
  mapped, save_order, place_order, delete, save, place, clear,
}
use golang_microservices_eco.Ordering.Repository.Transaction.{in_tx-invariant}
use golang_microservices_eco.Ordering.Repository.Integrity.{
  IsConsistent, save_customer-IsConsistent, add_products-IsConsistent, upsert_order-IsConsistent,
  clear-IsConsistent, insert_order_items-IsConsistent, stage-IsConsistent,
  without_order-IsConsistent,
}

-- A call of the repository, with what the database does meanwhile.
pub data Call (Amount : Type 0) : Type 0 where
  saves :
      Server Amount
      → (Order Amount → ℕ → Event → Fallible EnvelopeError (Option Envelope))
      → ℕ
      → Order Amount
      → Call Amount
  places :
      Server Amount
      → (Order Amount → ℕ → Event → Fallible EnvelopeError (Option Envelope))
      → ℕ
      → Order Amount
      → Customer
      → List (Product Amount)
      → Call Amount
  deletes : Server Amount → ℕ → Call Amount

module _ {Amount : Type 0} where
  module _ (server : Server Amount) where
    module _ (map_event : Order Amount → ℕ → Event → Fallible EnvelopeError (Option Envelope)) where
      stage_events-IsConsistent :
          (order : Order Amount) (i : ℕ) (events : List Event) (db after : Tables Amount)
          → IsConsistent db
          → stage_events server map_event order i events db ≡ ok after
          → IsConsistent after
      unfolding stage_events
      stage_events-IsConsistent order i [] db after c h = subst IsConsistent (ok-injective h) c
      stage_events-IsConsistent order i (event ∷ events) db after c h =
          let (envelope, is_mapped, rest) = >>=-eq-ok (mapped (map_event order i event)) _ h in
          let (db', staged, later) = >>=-eq-ok (stage server envelope db) _ rest in
          stage_events-IsConsistent order (suc i) events db' after
            (stage-IsConsistent server envelope db db' c staged) later

      save_order-IsConsistent :
          (now : ℕ) (order : Order Amount) (db after : Tables Amount)
          → IsConsistent db
          → save_order server map_event now order db ≡ ok after
          → IsConsistent after
      unfolding save_order
      save_order-IsConsistent now order db after c h =
          let (db', saved, rest) = >>=-eq-ok (upsert_order server now order db) _ h in
          let (cleared, is_cleared, rest') = >>=-eq-ok (clear server order.id db') _ rest in
          let (filled, is_filled, staged) =
            >>=-eq-ok (insert_order_items server order.id order.items cleared) _ rest' in
          stage_events-IsConsistent order 0 order.events filled after
            (insert_order_items-IsConsistent server order.id order.items cleared filled
              (clear-IsConsistent server order.id db' cleared
                (upsert_order-IsConsistent server now order db db' c saved) is_cleared)
              is_filled)
            staged

      place_order-IsConsistent :
          (now : ℕ) (order : Order Amount) (customer : Customer) (products : List (Product Amount))
          (db after : Tables Amount)
          → IsConsistent db
          → place_order server map_event now order customer products db ≡ ok after
          → IsConsistent after
      unfolding place_order
      place_order-IsConsistent now order customer products db after c h =
          let (known, is_known, rest) = >>=-eq-ok (save_customer server customer db) _ h in
          let (stocked, is_stocked, saved) =
            >>=-eq-ok (add_products server [] products known) _ rest in
          save_order-IsConsistent now order stocked after
            (add_products-IsConsistent server products [] known stocked
              (save_customer-IsConsistent server customer db known c is_known) is_stocked)
            saved

  abbrev pub perform : Call Amount → Tables Amount → Tables Amount
  perform (saves server map_event now order) db = (save server map_event now order db).2
  perform (places server map_event now order customer products) db =
      (place server map_event now order customer products db).2
  perform (deletes server id) db = (delete server id db).1

  abbrev pub perform_all : List (Call Amount) → Tables Amount → Tables Amount
  perform_all [] db = db
  perform_all (call ∷ calls) db = perform_all calls (perform call db)

  perform-IsConsistent :
      (call : Call Amount) (db : Tables Amount) → IsConsistent db → IsConsistent (perform call db)
  unfolding save place delete
  perform-IsConsistent (saves server map_event now order) db c =
      in_tx-invariant server IsConsistent (save_order server map_event now order) db c
        (λ after. save_order-IsConsistent server map_event now order db after c)
  perform-IsConsistent (places server map_event now order customer products) db c =
      in_tx-invariant server IsConsistent (place_order server map_event now order customer products)
        db c
        (λ after. place_order-IsConsistent server map_event now order customer products db after c)
  perform-IsConsistent (deletes server id) db c =
      ground (arith, without_order-IsConsistent server id db c)

  -- The tables enforce their keys and references, so, whichever statements fail, a sequence of saves, placements and deletions keeps the tables
  -- consistent: no two rows share a primary key, the customer of every order is recorded, and the
  -- order and the product of every line are.
  pub perform_all-IsConsistent :
      (calls : List (Call Amount)) (db : Tables Amount)
      → IsConsistent db
      → IsConsistent (perform_all calls db)
  perform_all-IsConsistent [] db c = c
  perform_all-IsConsistent (call ∷ calls) db c =
      perform_all-IsConsistent calls (perform call db) (perform-IsConsistent call db c)
