-- ===== src/Ordering/Repository/Integrity.antt =====
-- internal/ordering/mssql/repository.go: the keys and references that the tables of the migrations
-- enforce.
pub mod Calls
use golang_microservices_eco.Prelude.{
  ℕ, suc, ◌==◌, ◌≡◌, refl, sym, ap, ◌∙◌, arith, Bool, Bool-cases, true, false, inl, inr, List, [],
  ◌∷◌, ◌++◌, keep, any, negate, All, All-append, All-map, All-keep, Fallible, Fallible-cases, ok,
  err, ok-injective, >>=-eq-ok, if◌then◌else◌, Option, Option-cases, none, some, subst, ◌&&◌,
}
use golang_microservices_eco.Platform.Messaging.{Envelope, EnvelopeError}
use golang_microservices_eco.Ordering.Domain.Values.{Customer, Product}
use golang_microservices_eco.Ordering.Domain.Order.{OrderItem, Order, Event}
use golang_microservices_eco.Ordering.Rows.{OrderRow, order_row}
use golang_microservices_eco.Ordering.Tables.{Tables, has, merge}
use golang_microservices_eco.Ordering.Tables.Merge.{
  IsKeyed, has-append-old, IsKeyed-append, IsKeyed-keep, has-kept, merge-has-old, merge-IsKeyed,
  merge-All, merge-has,
}
use golang_microservices_eco.Ordering.Repository.{
  Server, Statement, Result, record_customer, record_product, upsert, clear_lines, insert_line,
  insert_message, save_customer, insert_product, add_product_if_unknown, add_products, upsert_order,
  insert_row, insert_order_item, insert_order_items, insert_outbox_message, stage, stage_events,
  mapped, save_order, place_order, without_order, delete, in_tx, save, place, clear,
}
use golang_microservices_eco.Ordering.Repository.Transaction.{execute-ok, in_tx-invariant}

module _ {Amount : Type 0} where
  -- A line refers to an order and to a product.
  abbrev pub Refers : List OrderRow → List (Product Amount) → OrderItem Amount → Type 0
  Refers orders products line =
      (has (λ r. r.id) line.order_id orders ≡ true)
      × (has (λ p. p.id) line.product_id products ≡ true)

  -- Primary keys are unique, and every reference is to a row that is there.
  pub record IsConsistent (db : Tables Amount) : Type 0 where
    pub customers : IsKeyed (λ c. c.id) db.customers
    pub products : IsKeyed (λ p. p.id) db.products
    pub orders : IsKeyed (λ r. r.id) db.orders
    pub lines : IsKeyed (λ l. l.id) db.order_items
    pub messages : IsKeyed (λ m. m.id) db.outbox_messages
    pub buyers : All (λ r. has (λ c. c.id) r.customer_id db.customers ≡ true) db.orders
    pub references : All (Refers db.orders db.products) db.order_items

  -- The lines that a deleted order leaves still refer to orders.
  references_left :
      (id : ℕ) (orders : List OrderRow) (products : List (Product Amount))
      (lines : List (OrderItem Amount))
      → All (Refers orders products) lines
      → All
          (Refers (keep (λ r. negate (r.id == id)) orders) products)
          (keep (λ l. negate (l.order_id == id)) lines)
  references_left id orders products [] all = tt
  references_left id orders products (line ∷ lines) all = elim (Bool-cases (line.order_id == id)) [
    | inl gone ↦ rw gone (references_left id orders products lines all.1)
    | inr other ↦ rw other (
      (has-kept (λ r. r.id) id line.order_id orders other ∙ all.0.0, all.0.1),
      references_left id orders products lines all.1,
    )
  ]

  module _ (server : Server Amount) where
    pub save_customer-IsConsistent :
        (customer : Customer) (db after : Tables Amount)
        → IsConsistent db
        → save_customer server customer db ≡ ok after
        → IsConsistent after
    unfolding save_customer
    save_customer-IsConsistent customer db after c h =
        let e = ok-injective (execute-ok server (record_customer customer) _ after h) in
        subst IsConsistent e (record {
          customers =
              merge-IsKeyed (λ c. c.id) (λ _. customer) customer db.customers (λ _ _. refl)
                c.customers;
          products = c.products;
          orders = c.orders;
          lines = c.lines;
          messages = c.messages;
          buyers =
              All-map _ _ db.orders
                (λ r there.
                  merge-has-old (λ c. c.id) (λ _. customer) customer r.customer_id db.customers
                    (λ _ _. refl) there)
                c.buyers;
          references = c.references;
        })

    insert_product-IsConsistent :
        (product : Product Amount) (price : Option Amount) (db after : Tables Amount)
        → IsConsistent db
        → insert_product product db price ≡ ok after
        → IsConsistent after
    unfolding insert_product
    insert_product-IsConsistent product none db after c h = cc
    insert_product-IsConsistent product (some price) db after c h =
        let same : (row : Product Amount) → (row.id == product.id) ≡ true → row.id ≡ product.id =
          λ row e. ground arith in
        subst IsConsistent (ok-injective h) (record {
          customers = c.customers;
          products =
              merge-IsKeyed (λ p. p.id) (λ p. p) (record product { price = price }) db.products same
                c.products;
          orders = c.orders;
          lines = c.lines;
          messages = c.messages;
          buyers = c.buyers;
          references =
              All-map _ _ db.order_items
                (λ l there. (
                  there.0,
                  merge-has-old (λ p. p.id) (λ p. p) (record product { price = price }) l.product_id
                      db.products same there.1,
                ))
                c.references;
        })

    pub add_products-IsConsistent :
        (products : List (Product Amount)) (seen : List ℕ) (db after : Tables Amount)
        → IsConsistent db
        → add_products server seen products db ≡ ok after
        → IsConsistent after
    unfolding add_products
    add_products-IsConsistent [] seen db after c h = subst IsConsistent (ok-injective h) c
    add_products-IsConsistent (product ∷ products) seen db after c h =
        elim (Bool-cases (any (λ id. id == product.id) seen)) [
          | inl again ↦ add_products-IsConsistent products seen db after c (rw again at h)
          | inr first ↦
              let (db', added, rest) =
                >>=-eq-ok (add_product_if_unknown server product db) _ (rw first at h) in
              add_products-IsConsistent products (product.id ∷ seen) db' after
                (insert_product-IsConsistent product (server.column product.price) db db' c (
                  execute-ok server (record_product product) _ db'
                    (unfold add_product_if_unknown in added)))
                rest
        ]

    pub upsert_order-IsConsistent :
        (now : ℕ) (order : Order Amount) (db after : Tables Amount)
        → IsConsistent db
        → upsert_order server now order db ≡ ok after
        → IsConsistent after
    unfolding upsert_order
    upsert_order-IsConsistent now order db after c h =
        let row = order_row now order in
        let update : OrderRow → OrderRow = λ old. record row { created_at = old.created_at } in
        let checked = execute-ok server (upsert row) _ after h in
        elim (Bool-cases (has (λ c. c.id) row.customer_id db.customers)) [
          | inr missing ↦ cc (rw missing at checked)
          | inl there ↦ subst IsConsistent (ok-injective (rw there at checked)) (record {
            customers = c.customers;
            products = c.products;
            orders = merge-IsKeyed (λ r. r.id) update row db.orders (λ _ _. refl) c.orders;
            lines = c.lines;
            messages = c.messages;
            buyers =
                merge-All (λ r. r.id) update row
                  (λ r. has (λ c. c.id) r.customer_id db.customers ≡ true) db.orders (λ _ _. there)
                  there c.buyers;
            references =
                All-map _ _ db.order_items
                  (λ l ref. (
                    merge-has-old (λ r. r.id) update row l.order_id db.orders (λ _ _. refl) ref.0,
                    ref.1,
                  ))
                  c.references;
          })
        ]

    insert_row-IsConsistent :
        (row : OrderItem Amount) (price : Option Amount) (db after : Tables Amount)
        → IsConsistent db
        → insert_row row db price ≡ ok after
        → IsConsistent after
    unfolding insert_row
    insert_row-IsConsistent row none db after c h = cc
    insert_row-IsConsistent row (some price) db after c h =
        elim (Bool-cases (has (λ l. l.id) row.id db.order_items)) [
          | inl taken ↦ cc (rw taken at h)
          | inr fresh ↦ elim (Bool-cases (has (λ r. r.id) row.order_id db.orders)) [
            | inr missing ↦ cc (rw (fresh, missing) at h)
            | inl owner ↦ elim (Bool-cases (has (λ p. p.id) row.product_id db.products)) [
              | inr missing ↦ cc (rw (fresh, owner, missing) at h)
              | inl product ↦
                  subst IsConsistent (ok-injective (rw (fresh, owner, product) at h)) (record {
                    customers = c.customers;
                    products = c.products;
                    orders = c.orders;
                    lines =
                        IsKeyed-append (λ l. l.id) db.order_items (record row { price = price })
                          c.lines fresh;
                    messages = c.messages;
                    buyers = c.buyers;
                    references =
                        All-append _ db.order_items (record row { price = price } ∷ []) c.references
                          ((owner, product), tt);
                  })
            ]
          ]
        ]

    pub insert_order_items-IsConsistent :
        (order_id : ℕ) (items : List (OrderItem Amount)) (db after : Tables Amount)
        → IsConsistent db
        → insert_order_items server order_id items db ≡ ok after
        → IsConsistent after
    unfolding insert_order_items insert_order_item
    insert_order_items-IsConsistent order_id [] db after c h = subst IsConsistent (ok-injective h) c
    insert_order_items-IsConsistent order_id (item ∷ items) db after c h =
        let row = record item { order_id = order_id } in
        let (db', added, rest) = >>=-eq-ok (insert_order_item server order_id item db) _ h in
        insert_order_items-IsConsistent order_id items db' after
          (insert_row-IsConsistent row (server.column item.price) db db' c
            (execute-ok server (insert_line row) _ db' added))
          rest

    insert_outbox_message-IsConsistent :
        (envelope : Envelope) (db after : Tables Amount)
        → IsConsistent db
        → insert_outbox_message server envelope db ≡ ok after
        → IsConsistent after
    unfolding insert_outbox_message
    insert_outbox_message-IsConsistent envelope db after c h =
        let checked = execute-ok server (insert_message envelope) _ after h in
        elim (Bool-cases (has (λ m. m.id) envelope.id db.outbox_messages)) [
          | inl taken ↦ cc (rw taken at checked)
          | inr fresh ↦ subst IsConsistent (ok-injective (rw fresh at checked)) (record {
            customers = c.customers;
            products = c.products;
            orders = c.orders;
            lines = c.lines;
            messages = IsKeyed-append (λ m. m.id) db.outbox_messages envelope c.messages fresh;
            buyers = c.buyers;
            references = c.references;
          })
        ]

    pub stage-IsConsistent :
        (envelope : Option Envelope) (db after : Tables Amount)
        → IsConsistent db
        → stage server envelope db ≡ ok after
        → IsConsistent after
    stage-IsConsistent none db after c h = subst IsConsistent (ok-injective h) c
    stage-IsConsistent (some envelope) db after c h =
        insert_outbox_message-IsConsistent envelope db after c h

    pub clear-IsConsistent :
        (order_id : ℕ) (db after : Tables Amount)
        → IsConsistent db
        → clear server order_id db ≡ ok after
        → IsConsistent after
    unfolding clear
    clear-IsConsistent order_id db after c h =
        subst IsConsistent (ok-injective (execute-ok server (clear_lines order_id) _ after h))
          (record {
            customers = c.customers;
            products = c.products;
            orders = c.orders;
            lines =
                IsKeyed-keep (λ l. l.id) (λ l. negate (l.order_id == order_id)) db.order_items
                  c.lines;
            messages = c.messages;
            buyers = c.buyers;
            references =
                All-keep _ (λ l. negate (l.order_id == order_id)) db.order_items c.references;
          })

    pub without_order-IsConsistent :
        (id : ℕ) (db : Tables Amount) → IsConsistent db → IsConsistent (without_order id db)
    without_order-IsConsistent id db c = record {
      customers = c.customers;
      products = c.products;
      orders = IsKeyed-keep (λ r. r.id) (λ r. negate (r.id == id)) db.orders c.orders;
      lines = IsKeyed-keep (λ l. l.id) (λ l. negate (l.order_id == id)) db.order_items c.lines;
      messages = c.messages;
      buyers = All-keep _ (λ r. negate (r.id == id)) db.orders c.buyers;
      references = references_left id db.orders db.products db.order_items c.references;
    }
