-- ===== src/Ordering/Orders/Handlers/Updated.antt =====
-- internal/ordering/orders/update_order.go: how an update ends.
use golang_microservices_eco.Prelude.{
  ℕ, ◌==◌, ◌≡◌, refl, sym, ap, ◌∙◌, subst, arith, Bool-cases, inl, inr, Option, none, some, List,
  [], ◌∷◌, ◌++◌, Fallible, Fallible-cases, ok, err, ok-injective, >>=-eq-ok,
}
use golang_microservices_eco.Platform.Messaging.{Envelope, EnvelopeError}
use golang_microservices_eco.Ordering.Domain.Values
use golang_microservices_eco.Ordering.Domain.Values.{
  Address, Payment, new_order_id, new_customer_id,
}
use golang_microservices_eco.Ordering.Domain.Status.{parse_order_status, parse_order_status-eq_ok}
use golang_microservices_eco.Ordering.Domain.Order.{
  Order, Event, order_updated, update, restore, build_order, raise,
}
use golang_microservices_eco.Ordering.Rows.{
  OrderRow, scan_order, scan_address, scan_payment, with_items,
}
use golang_microservices_eco.Ordering.Tables.{Tables, find}
use golang_microservices_eco.Ordering.Repository
use golang_microservices_eco.Ordering.Repository.{Server, save, select_order, readable, execute}
use golang_microservices_eco.Ordering.Repository.Transaction.{execute-ok}
use golang_microservices_eco.Ordering.Repository.Saved.Complete.{
  IsSaved, SaveEnded, refused, saved, saved_unconfirmed, save-SaveEnded,
}
use golang_microservices_eco.Ordering.Repository.Reads.{by_id, read_order, items_for}
use golang_microservices_eco.Ordering.Orders.Handlers.{
  Error, Result, repository, UpdateOrderCommand, address_of, payment_of, apply_update, client,
  stored, answer, save_made, load_updated, update_order,
}

client-ok : {A : Type 0} (r : Values.Result A) (a : A) → client r ≡ ok a → r ≡ ok a
client-ok (ok b) a h = ap ok (ok-injective h)
client-ok (err e) a h = cc

stored-ok : {A : Type 0} (r : Repository.Result A) (a : A) → stored r ≡ ok a → r ≡ ok a
stored-ok (ok b) a h = ap ok (ok-injective h)
stored-ok (err e) a h = cc

readable-ok : {A : Type 0} (r : Values.Result A) (a : A) → readable r ≡ ok a → r ≡ ok a
readable-ok (ok b) a h = ap ok (ok-injective h)
readable-ok (err e) a h = cc

order_id-kept : (value id : ℕ) → new_order_id value ≡ ok id → id ≡ value
unfolding new_order_id
order_id-kept value id h = ground arith

find-key :
    (id : ℕ) (rows : List OrderRow) (row : OrderRow)
    → find (λ r. r.id) id rows ≡ some row
    → row.id ≡ id
unfolding find
find-key id [] row h = cc
find-key id (r ∷ rows) row h = elim (Bool-cases (r.id == id)) [
  | inl here ↦
      let e : some r ≡ some row = rw here at h in
      let f : r ≡ row = cc in ap (λ x. x.id) (sym f) ∙ ground arith
  | inr other ↦ find-key id rows row (rw other at h)
]

module _ {Amount : Type 0} where
  scan_order-fields :
      (row : OrderRow) (order : Order Amount)
      → scan_order row ≡ ok order
      → (order.id ≡ row.id) × (order.events ≡ [])
  unfolding scan_order restore build_order
  scan_order-fields row order h =
      let (id, is_id, h1) = >>=-eq-ok (new_order_id row.id) _ h in
      let (customer, is_customer, h2) = >>=-eq-ok (new_customer_id row.customer_id) _ h1 in
      let (status, is_status, h3) = >>=-eq-ok (parse_order_status row.status) _ h2 in
      let (shipping, is_shipping, h4) = >>=-eq-ok (scan_address row.shipping_address) _ h3 in
      let (billing, is_billing, h5) = >>=-eq-ok (scan_address row.billing_address) _ h4 in
      let (payment, is_payment, h6) = >>=-eq-ok (scan_payment row.payment) _ h5 in
      (
        ap (λ o. o.id) (sym (ok-injective h6)) ∙ order_id-kept row.id id is_id,
        ap (λ o. o.events) (sym (ok-injective h6)),
      )

  read_order-fields :
      (server : Server Amount) (id : ℕ) (found : Option OrderRow) (db : Tables Amount)
      (order : Order Amount)
      → read_order server id found db ≡ ok order
      → (row : OrderRow) × (found ≡ some row) × (order.id ≡ row.id) × (order.events ≡ [])
  unfolding read_order with_items restore build_order
  read_order-fields server id none db order h = cc
  read_order-fields server id (some row) db order h =
      let (scanned, is_scanned, rest) = >>=-eq-ok (readable (scan_order row)) _ h in
      let (items, is_items, done) = >>=-eq-ok (items_for server id db) _ rest in
      let fields =
        scan_order-fields row scanned (readable-ok (scan_order row) scanned is_scanned) in
      (
        row,
        refl,
        ap (λ o. o.id) (sym (ok-injective done)) ∙ fields.0,
        ap (λ o. o.events) (sym (ok-injective done)),
      )

  -- An order that was found and what the command makes of it.
  pub record IsUpdated (c : UpdateOrderCommand) (db : Tables Amount) (old new : Order Amount)
      : Type 0 where
    pub row : OrderRow
    pub was_there : find (λ r. r.id) c.id db.orders ≡ some row
    pub id : new.id ≡ c.id
    pub customer : new.customer_id ≡ old.customer_id
    pub items : new.items ≡ old.items
    pub shipping : address_of c.shipping_address ≡ ok new.shipping_address
    pub billing : address_of c.billing_address ≡ ok new.billing_address
    pub payment : payment_of c.payment ≡ ok new.payment
    pub status : parse_order_status c.status ≡ ok new.status
    pub events : new.events ≡ order_updated ∷ []

  module _ (server : Server Amount)
      (map_event : Order Amount → ℕ → Event → Fallible EnvelopeError (Option Envelope)) where
    load_updated-IsUpdated :
        (c : UpdateOrderCommand) (db : Tables Amount) (new : Order Amount)
        → load_updated server map_event c db ≡ ok new
        → (old : Order Amount) × (by_id server c.id db ≡ ok old) × IsUpdated c db old new
    unfolding load_updated apply_update by_id update raise
    load_updated-IsUpdated c db new h =
        let (id, is_id, h1) = >>=-eq-ok (client (new_order_id c.id)) _ h in
        let same = order_id-kept c.id id (client-ok (new_order_id c.id) id is_id) in
        let (old, is_old, h2) = >>=-eq-ok (stored (by_id server id db)) _ h1 in
        let found =
          subst (λ n. by_id server n db ≡ ok old) same
            (stored-ok (by_id server id db) old is_old) in
        let (row, was_there, old_id, old_events) =
          read_order-fields server c.id (find (λ r. r.id) c.id db.orders) db old
            (execute-ok server (select_order c.id) _ old found) in
        let applied = client-ok (apply_update old c) new h2 in
        let (shipping, is_shipping, h3) = >>=-eq-ok (address_of c.shipping_address) _ applied in
        let (billing, is_billing, h4) = >>=-eq-ok (address_of c.billing_address) _ h3 in
        let (payment, is_payment, h5) = >>=-eq-ok (payment_of c.payment) _ h4 in
        let (status, is_status, h6) = >>=-eq-ok (parse_order_status c.status) _ h5 in
        let known = ((parse_order_status-eq_ok c.status status).0 is_status).0 in
        let e = ok-injective (rw known at h6) in
        (
          old,
          found,
          subst (IsUpdated c db old) e (record {
            row = row;
            was_there = was_there;
            id = old_id ∙ find-key c.id db.orders row was_there;
            customer = refl;
            items = refl;
            shipping = is_shipping;
            billing = is_billing;
            payment = is_payment;
            status = is_status;
            events = ap (λ l. l ++ order_updated ∷ []) old_events;
          }),
        )

    -- How an update ends.
    pub data UpdateEnded (now : ℕ) (c : UpdateOrderCommand) (db : Tables Amount)
        : Result Unit × Tables Amount → Type 0 where
      rejected : (e : Error) → UpdateEnded now c db (err e, db)
      updated :
          (old new : Order Amount) (after : Tables Amount)
          → by_id server c.id db ≡ ok old
          → IsUpdated c db old new
          → IsSaved server map_event now new db after
          → UpdateEnded now c db (ok tt, after)
      updated_unconfirmed :
          (old new : Order Amount) (after : Tables Amount)
          → by_id server c.id db ≡ ok old
          → IsUpdated c db old new
          → IsSaved server map_event now new db after
          → UpdateEnded now c db (err (repository Repository.database), after)

    UpdateEnded-of :
        (now : ℕ) (c : UpdateOrderCommand) (db : Tables Amount) (old new : Order Amount)
        (r : Option Repository.Error × Order Amount × Tables Amount)
        → by_id server c.id db ≡ ok old
        → IsUpdated c db old new
        → SaveEnded server map_event now new db r
        → UpdateEnded now c db (answer tt r.0, r.2)
    UpdateEnded-of now c db old new _ found u (refused cause) = rejected (repository cause)
    UpdateEnded-of now c db old new _ found u (saved after s) = updated old new after found u s
    UpdateEnded-of now c db old new _ found u (saved_unconfirmed after s) =
        updated_unconfirmed old new after found u s

    -- Whatever the command says and whichever statements fail, an update either reports an error and
    -- has changed nothing, or has found the order that the command names and saved it with the
    -- command's addresses, payment and status, its customer and its lines as they were, and the
    -- announcement of one update; it then reports success, unless the commit has reported an error.
    -- So no update creates an order.
    pub update_order-UpdateEnded :
        (now : ℕ) (c : UpdateOrderCommand) (db : Tables Amount)
        → UpdateEnded now c db (update_order server map_event now c db)
    unfolding update_order save_made
    update_order-UpdateEnded now c db = elim (Fallible-cases (load_updated server map_event c db)) [
      | inl (e, failed) ↦ rw failed (rejected e)
      | inr (new, loaded) ↦
          let (old, found, u) = load_updated-IsUpdated c db new loaded in
          rw loaded (
            UpdateEnded-of now c db old new (save server map_event now new db) found u
              (save-SaveEnded server map_event now new db))
    ]
