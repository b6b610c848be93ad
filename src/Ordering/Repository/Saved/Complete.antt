-- ===== src/Ordering/Repository/Saved/Complete.antt =====
-- internal/ordering/mssql/repository.go and outbox.go: what a saved order has written.
use golang_microservices_eco.Prelude.{
  ℕ, ◌==◌, ◌≡◌, refl, sym, ap, ◌∙◌, arith, Bool-cases, true, false, inl, inr, Option, Option-cases,
  none, some, List, [], ◌∷◌, ◌++◌, append-nil, keep, negate, All, All-map, All-keep_self,
  keep-append, keep-All, keep_none, Bool, Fallible, ok, ok-injective, >>=-eq-ok, subst,
}
use golang_microservices_eco.Platform.Messaging.{Envelope, EnvelopeError}
use golang_microservices_eco.Ordering.Domain.Order.{OrderItem, Order, Event, pull_events}
use golang_microservices_eco.Ordering.Rows.{OrderRow, order_row}
use golang_microservices_eco.Ordering.Tables.{Tables, has, find, merge}
use golang_microservices_eco.Ordering.Tables.Find.{merged, find-merge, find-merge-other}
use golang_microservices_eco.Ordering.Repository.{
  Server, upsert, clear_lines, insert_order_items, upsert_order, clear, save_order, save, in_tx,
  settled, Error, database,
}
use golang_microservices_eco.Ordering.Repository.Transaction.{
  execute-ok, Ended, unchanged, committed, unconfirmed, in_tx-Ended,
}
use golang_microservices_eco.Ordering.Repository.Saved.{
  announcements, written, AreWritten, done, next, insert_order_items-ok, stage_events-ok,
}

module _ {A : Type 0} (p : A → Bool) where
  keep-negate : (xs : List A) → keep p (keep (λ x. negate (p x)) xs) ≡ []
  keep-negate [] = refl
  keep-negate (x ∷ xs) = ground (arith, keep-negate xs)

  -- Replacing what passes a test by other such elements.
  keep-replaced :
      (xs ys : List A) → All (λ y. p y ≡ true) ys → keep p (keep (λ x. negate (p x)) xs ++ ys) ≡ ys
  keep-replaced xs ys h =
      keep-append p (keep (λ x. negate (p x)) xs) ys
      ∙ (ap (λ l. l ++ keep p ys) (keep-negate xs) ∙ keep-All p ys h)

  keep-others :
      (xs ys : List A)
      → All (λ y. p y ≡ true) ys
      → keep (λ x. negate (p x)) (keep (λ x. negate (p x)) xs ++ ys) ≡ keep (λ x. negate (p x)) xs
  keep-others xs ys h =
      keep-append (λ x. negate (p x)) (keep (λ x. negate (p x)) xs) ys
      ∙ (ap (λ l. l ++ keep (λ x. negate (p x)) ys)
            (keep-All (λ x. negate (p x)) (keep (λ x. negate (p x)) xs)
              (All-keep_self (λ x. negate (p x)) xs))
          ∙ (ap (λ l. keep (λ x. negate (p x)) xs ++ l)
                (keep_none (λ x. negate (p x)) ys (All-map _ _ ys (λ y e. rw e refl) h))
              ∙ append-nil (keep (λ x. negate (p x)) xs)))

module _ {Amount : Type 0} (server : Server Amount) where
  written-owner :
      (order_id : ℕ) (item row : OrderItem Amount)
      → written server.column order_id item ≡ some row
      → row.order_id ≡ order_id
  written-owner order_id item row h = elim (Option-cases (server.column item.price)) [
    | inl refused ↦ cc (rw (written, refused) at h)
    | inr (p, taken) ↦
        let e : some (record item { order_id = order_id; price = p }) ≡ some row =
          rw (written, taken) at h in
        let f : record item { order_id = order_id; price = p } ≡ row = cc in
        ap (λ l. l.order_id) (sym f)
  ]

  AreWritten-owner :
      (order_id : ℕ) (items rows : List (OrderItem Amount))
      → AreWritten server order_id items rows
      → All (λ l. (l.order_id == order_id) ≡ true) rows
  AreWritten-owner order_id _ _ done = tt
  AreWritten-owner order_id _ _ (next item row items rows h ws) = (
    rw (written-owner order_id item row h) (ground arith),
    AreWritten-owner order_id items rows ws,
  )

  module _ (map_event : Order Amount → ℕ → Event → Fallible EnvelopeError (Option Envelope)) where
    -- The merge of upsertOrder.
    abbrev pub updated : ℕ → Order Amount → OrderRow → OrderRow
    updated now order old = record (order_row now order) { created_at = old.created_at }

    pub upsert_order-ok :
        (now : ℕ) (order : Order Amount) (db after : Tables Amount)
        → upsert_order server now order db ≡ ok after
        → after ≡ record db {
          orders = merge (λ r. r.id) (updated now order) (order_row now order) db.orders;
        }
    unfolding upsert_order
    upsert_order-ok now order db after h =
        let checked = execute-ok server (upsert (order_row now order)) _ after h in
        elim (Bool-cases (has (λ c. c.id) (order_row now order).customer_id db.customers)) [
          | inr missing ↦ cc (rw missing at checked)
          | inl there ↦ sym (ok-injective (rw there at checked))
        ]

    -- What saving an order leaves: its row, created when it first was, with its lines in their
    -- order and nothing of the lines before; the other orders and their lines as they were; and the
    -- announcements of its events behind the messages that were there.
    pub record IsSaved (now : ℕ) (order : Order Amount) (db after : Tables Amount) : Type 0 where
      pub row :
          find (λ r. r.id) order.id after.orders
          ≡ some (
              merged
                (λ r. r.id)
                (updated now order)
                (order_row now order)
                (find (λ r. r.id) order.id db.orders))
      pub other_orders :
          (id : ℕ)
          → (order.id == id) ≡ false
          → find (λ r. r.id) id after.orders ≡ find (λ r. r.id) id db.orders
      pub rows : List (OrderItem Amount)
      pub are_rows : AreWritten server order.id order.items rows
      pub lines : keep (λ l. l.order_id == order.id) after.order_items ≡ rows
      pub other_lines :
          keep (λ l. negate (l.order_id == order.id)) after.order_items
          ≡ keep (λ l. negate (l.order_id == order.id)) db.order_items
      pub announced : List Envelope
      pub is_announced : announcements (map_event order) 0 order.events ≡ ok announced
      pub messages : after.outbox_messages ≡ db.outbox_messages ++ announced
      pub customers : after.customers ≡ db.customers
      pub products : after.products ≡ db.products

    save_order-ok :
        (now : ℕ) (order : Order Amount) (db after : Tables Amount)
        → save_order server map_event now order db ≡ ok after
        → (rows : List (OrderItem Amount)) × (es : List Envelope) × AreWritten server order.id
            order.items rows
          × (announcements (map_event order) 0 order.events ≡ ok es)
          × (after ≡ record {
            customers = db.customers;
            products = db.products;
            orders = merge (λ r. r.id) (updated now order) (order_row now order) db.orders;
            order_items = keep (λ l. negate (l.order_id == order.id)) db.order_items ++ rows;
            outbox_messages = db.outbox_messages ++ es;
          })
    unfolding save_order clear
    save_order-ok now order db after h =
        let (db', saved, rest) = >>=-eq-ok (upsert_order server now order db) _ h in
        let (cleared, is_cleared, rest') = >>=-eq-ok (clear server order.id db') _ rest in
        let (filled, is_filled, staged) =
          >>=-eq-ok (insert_order_items server order.id order.items cleared) _ rest' in
        let is_db' = upsert_order-ok now order db db' saved in
        let is_cleared' =
          ok-injective (execute-ok server (clear_lines order.id) _ cleared is_cleared) in
        let (rows, are_rows, is_filled') =
          insert_order_items-ok server order.id order.items cleared filled is_filled in
        let (es, are_es, is_after) =
          stage_events-ok server map_event order 0 order.events filled after staged in
        (
          rows,
          es,
          are_rows,
          are_es,
          is_after
              ∙ ap {A = Tables Amount} (λ t. record t { outbox_messages = t.outbox_messages ++ es })
                  (is_filled'
                    ∙ ap {A = Tables Amount} (λ t. record t { order_items = t.order_items ++ rows })
                        (sym is_cleared'
                          ∙ ap {A = Tables Amount}
                              (λ t. record t {
                                order_items =
                                    keep (λ l. negate (l.order_id == order.id)) t.order_items;
                              })
                              is_db')),
        )

    pub save_order-IsSaved :
        (now : ℕ) (order : Order Amount) (db after : Tables Amount)
        → save_order server map_event now order db ≡ ok after
        → IsSaved now order db after
    unfolding order_row
    save_order-IsSaved now order db after h =
        let (rows, es, are_rows, are_es, is_after) = save_order-ok now order db after h in
        let here = AreWritten-owner order.id order.items rows are_rows in
        subst (IsSaved now order db) (sym is_after) (record {
          row =
              find-merge (λ r. r.id) (updated now order) (order_row now order) db.orders
                (λ _ _. refl);
          other_orders = λ id other.
              find-merge-other (λ r. r.id) (updated now order) (order_row now order) id db.orders
                (λ _ _. refl) other;
          rows = rows;
          are_rows = are_rows;
          lines = keep-replaced (λ l. l.order_id == order.id) db.order_items rows here;
          other_lines = keep-others (λ l. l.order_id == order.id) db.order_items rows here;
          announced = es;
          is_announced = are_es;
          messages = refl;
          customers = refl;
          products = refl;
        })

    -- How Save ends.
    pub data SaveEnded (now : ℕ) (order : Order Amount) (db : Tables Amount)
        : Option Error × Order Amount × Tables Amount → Type 0 where
      refused : (cause : Error) → SaveEnded now order db (some cause, order, db)
      saved :
          (after : Tables Amount)
          → IsSaved now order db after
          → SaveEnded now order db (none, record order { events = [] }, after)
      saved_unconfirmed :
          (after : Tables Amount)
          → IsSaved now order db after
          → SaveEnded now order db (some database, order, after)

    SaveEnded-of :
        (now : ℕ) (order : Order Amount) (db : Tables Amount) (r : Option Error × Tables Amount)
        → Ended server (save_order server map_event now order) db r
        → SaveEnded now order db (r.0, settled server r.0 order, r.1)
    unfolding pull_events
    SaveEnded-of now order db _ (unchanged cause) = refused cause
    SaveEnded-of now order db _ (committed after h) =
        saved after (save_order-IsSaved now order db after h)
    SaveEnded-of now order db _ (unconfirmed after h) =
        saved_unconfirmed after (save_order-IsSaved now order db after h)

    -- Whichever statements fail, Save either reports an error and has changed nothing, and the order
    -- keeps its events; or the order is completely saved, with its lines and the announcements of
    -- its events, and its events are dropped; or the commit has reported an error although the order
    -- is completely saved, and the order keeps its events.
    pub save-SaveEnded :
        (now : ℕ) (order : Order Amount) (db : Tables Amount)
        → SaveEnded now order db (save server map_event now order db)
    unfolding save
    save-SaveEnded now order db =
        SaveEnded-of now order db (in_tx server (save_order server map_event now order) db)
          (in_tx-Ended server (save_order server map_event now order) db)
