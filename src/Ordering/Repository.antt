-- ===== src/Ordering/Repository.antt =====
-- internal/ordering/mssql/repository.go and outbox.go. `fails` says which statements of a call the
-- database or its driver refuses; a commit that reports an error may have gone through or not. The
-- time of a statement is an argument, and one call runs at a time.
pub mod Transaction
pub mod Integrity
pub mod Reads
pub mod Saved
pub mod Deleted
pub mod Placed
pub mod Stocked
pub mod Works
pub mod Resaved
use golang_microservices_eco.Prelude.{
  ℕ, suc, ◌==◌, Bool, Option, none, some, List, [], ◌∷◌, ◌++◌, ◌&&◌, any, keep, negate,
  if◌then◌else◌, Fallible, ok, err, ◌>>=◌,
}
use golang_microservices_eco.Platform.Messaging.{Envelope, EnvelopeError}
use golang_microservices_eco.Ordering.Domain.Values
use golang_microservices_eco.Ordering.Domain.Values.{Customer, Product}
use golang_microservices_eco.Ordering.Domain.Order.{OrderItem, Order, Event, pull_events}
use golang_microservices_eco.Ordering.Rows.{OrderRow, order_row}
use golang_microservices_eco.Ordering.Tables.{Tables, has, merge}

pub data Error : Type 0 where
  order_not_found customer_missing product_missing : ℕ → Error
  database : Error
  unmapped : EnvelopeError → Error
  unreadable : Values.Error → Error

abbrev pub Result : Type 0 → Type 0
Result A = Fallible Error A

-- What a call sends to the database.
pub data Statement (Amount : Type 0) : Type 0 where
  begin commit count_orders select_orders : Statement Amount
  record_customer : Customer → Statement Amount
  record_product : Product Amount → Statement Amount
  upsert : OrderRow → Statement Amount
  clear_lines : ℕ → Statement Amount
  insert_line : OrderItem Amount → Statement Amount
  insert_message : Envelope → Statement Amount
  delete_row rows_affected select_order select_lines : ℕ → Statement Amount

-- `column` is the price that the DECIMAL(18, 2) column holds of one, with nothing where it takes
-- none; `newer` and `before` are the orders of CreatedAt and of UNIQUEIDENTIFIER.
pub record Server (Amount : Type 0) : Type 0 where
  pub fails : Statement Amount → Bool
  pub commit_kept : Bool
  pub column : Amount → Option Amount
  pub before : ℕ → ℕ → Bool

abbrev pub mapped : {A : Type 0} → Fallible EnvelopeError A → Result A
mapped (ok a) = ok a
mapped (err e) = err (unmapped e)

abbrev pub readable : {A : Type 0} → Values.Result A → Result A
readable (ok a) = ok a
readable (err e) = err (unreadable e)

module _ {Amount : Type 0} where
  unfoldable pub insert_product :
      Product Amount → Tables Amount → Option Amount → Result (Tables Amount)
  insert_product product db none = err database
  insert_product product db (some price) = ok (record db {
    products = merge (λ p. p.id) (λ p. p) (record product { price = price }) db.products;
  })

  -- The INSERT of a line, as the keys and references that the migrations declare admit it.
  unfoldable pub insert_row :
      OrderItem Amount → Tables Amount → Option Amount → Result (Tables Amount)
  insert_row row db none = err database
  insert_row row db (some price) =
      if has (λ l. l.id) row.id db.order_items
      then err database
      else if has (λ r. r.id) row.order_id db.orders && has (λ p. p.id) row.product_id db.products
      then ok (record db { order_items = db.order_items ++ record row { price = price } ∷ [] })
      else err (product_missing row.product_id)

  abbrev pub without_order : ℕ → Tables Amount → Tables Amount
  without_order id db = record db {
    orders = keep (λ r. negate (r.id == id)) db.orders;
    order_items = keep (λ l. negate (l.order_id == id)) db.order_items;
  }

module _ {Amount : Type 0} (server : Server Amount) where
  -- A statement of a transaction.
  abbrev pub execute : {A : Type 0} → Statement Amount → Result A → Result A
  execute statement result = if server.fails statement then err database else result

  unfoldable pub save_customer : Customer → Tables Amount → Result (Tables Amount)
  save_customer customer db =
      execute (record_customer customer)
        (ok (record db { customers = merge (λ c. c.id) (λ _. customer) customer db.customers }))

  unfoldable pub add_product_if_unknown : Product Amount → Tables Amount → Result (Tables Amount)
  unfolding insert_product
  add_product_if_unknown product db =
      execute (record_product product) (insert_product product db (server.column product.price))

  -- The loop of Place over the products, with those it has seen.
  unfoldable pub add_products :
      List ℕ → List (Product Amount) → Tables Amount → Result (Tables Amount)
  add_products seen [] db = ok db
  add_products seen (product ∷ products) db =
      if any (λ id. id == product.id) seen
      then add_products seen products db
      else (add_product_if_unknown product db >>= λ db'.
          add_products (product.id ∷ seen) products db')

  unfoldable pub upsert_order : ℕ → Order Amount → Tables Amount → Result (Tables Amount)
  upsert_order now order db =
      let row = order_row now order in
      execute (upsert row) (
        if has (λ c. c.id) row.customer_id db.customers
        then ok (record db {
          orders =
              merge (λ r. r.id) (λ old. record row { created_at = old.created_at }) row db.orders;
        })
        else err (customer_missing row.customer_id))

  -- The DELETE of the lines in saveOrder.
  unfoldable pub clear : ℕ → Tables Amount → Result (Tables Amount)
  clear order_id db =
      execute (clear_lines order_id) (
        ok (record db { order_items = keep (λ l. negate (l.order_id == order_id)) db.order_items }))

  unfoldable pub insert_order_item : ℕ → OrderItem Amount → Tables Amount → Result (Tables Amount)
  unfolding insert_row
  insert_order_item order_id item db =
      let row = record item { order_id = order_id } in
      execute (insert_line row) (insert_row row db (server.column row.price))

  unfoldable pub insert_order_items :
      ℕ → List (OrderItem Amount) → Tables Amount → Result (Tables Amount)
  insert_order_items order_id [] db = ok db
  insert_order_items order_id (item ∷ items) db =
      insert_order_item order_id item db >>= λ db'. insert_order_items order_id items db'

  unfoldable pub insert_outbox_message : Envelope → Tables Amount → Result (Tables Amount)
  insert_outbox_message envelope db = execute (insert_message envelope) (
      if has (λ m. m.id) envelope.id db.outbox_messages
      then err database
      else ok (record db { outbox_messages = db.outbox_messages ++ envelope ∷ [] }))

  abbrev pub stage : Option Envelope → Tables Amount → Result (Tables Amount)
  stage none db = ok db
  stage (some envelope) db = insert_outbox_message envelope db

  module _ (map_event : Order Amount → ℕ → Event → Fallible EnvelopeError (Option Envelope)) where
    -- The loop of stageEvents, from the event with this number.
    unfoldable pub stage_events :
        Order Amount → ℕ → List Event → Tables Amount → Result (Tables Amount)
    stage_events order i [] db = ok db
    stage_events order i (event ∷ events) db = do
      envelope ← mapped (map_event order i event)
      db' ← stage envelope db
      stage_events order (suc i) events db'

    unfoldable pub save_order : ℕ → Order Amount → Tables Amount → Result (Tables Amount)
    save_order now order db = do
      db' ← upsert_order now order db
      cleared ← clear order.id db'
      filled ← insert_order_items order.id order.items cleared
      stage_events order 0 order.events filled

    unfoldable pub place_order :
        ℕ → Order Amount → Customer → List (Product Amount) → Tables Amount → Result (Tables Amount)
    place_order now order customer products db = do
      known ← save_customer customer db
      stocked ← add_products [] products known
      save_order now order stocked

  unfoldable pub finish : Tables Amount → Result (Tables Amount) → Option Error × Tables Amount
  finish db (err e) = (some e, db)
  finish db (ok after) =
      if server.fails commit
      then (some database, if server.commit_kept then after else db)
      else (none, after)

  -- inTx.
  unfoldable pub in_tx :
      (Tables Amount → Result (Tables Amount)) → Tables Amount → Option Error × Tables Amount
  unfolding finish
  in_tx run db = if server.fails begin then (some database, db) else finish db (run db)

  -- What Save and Place leave of the aggregate.
  abbrev pub settled : Option Error → Order Amount → Order Amount
  settled none order = (pull_events order).1
  settled (some _) order = order

  module _ (map_event : Order Amount → ℕ → Event → Fallible EnvelopeError (Option Envelope)) where
    unfoldable pub save :
        ℕ → Order Amount → Tables Amount → Option Error × Order Amount × Tables Amount
    unfolding in_tx
    save now order db =
        let (failure, after) = in_tx (save_order map_event now order) db in
        (failure, settled failure order, after)

    unfoldable pub place :
        ℕ
        → Order Amount
        → Customer
        → List (Product Amount)
        → Tables Amount
        → Option Error × Order Amount × Tables Amount
    unfolding in_tx
    place now order customer products db =
        let (failure, after) = in_tx (place_order map_event now order customer products) db in
        (failure, settled failure order, after)

  -- Delete; the cascade of the foreign key takes the lines.
  unfoldable pub delete : ℕ → Tables Amount → Option Error × Tables Amount
  delete id db =
      if server.fails (delete_row id)
      then (some database, db)
      else if server.fails (rows_affected id)
      then (some database, without_order id db)
      else if has (λ r. r.id) id db.orders
      then (none, without_order id db)
      else (some (order_not_found id), db)
