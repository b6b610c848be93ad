-- ===== src/Ordering/Repository/Deleted.antt =====
-- internal/ordering/mssql/repository.go: Delete.
use golang_microservices_eco.Prelude.{
  ℕ, ◌==◌, ◌≡◌, refl, arith, Bool-cases, true, false, inl, inr, none, some, List, [], ◌∷◌, keep,
  negate, All, if◌then◌else◌,
}
use golang_microservices_eco.Ordering.Domain.Values.{Product}
use golang_microservices_eco.Ordering.Domain.Order.{OrderItem}
use golang_microservices_eco.Ordering.Rows.{OrderRow}
use golang_microservices_eco.Ordering.Tables.{Tables, has, find}
use golang_microservices_eco.Ordering.Tables.Find.{find-removed, find-kept, find-has}
use golang_microservices_eco.Ordering.Repository.{
  Server, order_not_found, delete_row, rows_affected, without_order, delete,
}
use golang_microservices_eco.Ordering.Repository.Integrity.{Refers, IsConsistent}

module _ {Amount : Type 0} where
  -- The order and its lines are gone, and nothing else is.
  pub record IsDeleted (id : ℕ) (db after : Tables Amount) : Type 0 where
    pub order : find (λ r. r.id) id after.orders ≡ none
    pub lines : keep (λ l. l.order_id == id) after.order_items ≡ []
    pub other_orders :
        (other : ℕ)
        → (other == id) ≡ false
        → find (λ r. r.id) other after.orders ≡ find (λ r. r.id) other db.orders
    pub other_lines :
        (other : ℕ)
        → (other == id) ≡ false
        → keep (λ l. l.order_id == other) after.order_items
          ≡ keep (λ l. l.order_id == other) db.order_items
    pub messages : after.outbox_messages ≡ db.outbox_messages

  lines-removed :
      (id : ℕ) (lines : List (OrderItem Amount))
      → keep (λ l. l.order_id == id) (keep (λ l. negate (l.order_id == id)) lines) ≡ []
  lines-removed id [] = refl
  lines-removed id (line ∷ lines) = ground (arith, lines-removed id lines)

  lines-kept :
      (id other : ℕ) (lines : List (OrderItem Amount))
      → (other == id) ≡ false
      → keep (λ l. l.order_id == other) (keep (λ l. negate (l.order_id == id)) lines)
        ≡ keep (λ l. l.order_id == other) lines
  lines-kept id other [] h = refl
  lines-kept id other (line ∷ lines) h = ground (arith, lines-kept id other lines h)

  -- An order that is not there has no lines.
  lines_none :
      (id : ℕ) (orders : List OrderRow) (products : List (Product Amount))
      (lines : List (OrderItem Amount))
      → has (λ r. r.id) id orders ≡ false
      → All (Refers orders products) lines
      → keep (λ l. l.order_id == id) lines ≡ []
  lines_none id orders products [] h all = refl
  lines_none id orders products (line ∷ lines) h all = elim (Bool-cases (line.order_id == id)) [
    | inl owned ↦
        let e : line.order_id ≡ id = ground arith in
        let there : has (λ r. r.id) line.order_id orders ≡ true = all.0.0 in cc (rw e at there)
    | inr other ↦ rw other (lines_none id orders products lines h all.1)
  ]

  without_order-IsDeleted : (id : ℕ) (db : Tables Amount) → IsDeleted id db (without_order id db)
  without_order-IsDeleted id db = record {
    order = find-removed (λ r. r.id) id db.orders;
    lines = lines-removed id db.order_items;
    other_orders = λ other h. find-kept (λ r. r.id) id other db.orders h;
    other_lines = λ other h. lines-kept id other db.order_items h;
    messages = refl;
  }

  -- A deletion that the database takes and counts, of tables that are consistent, removes the order
  -- and its lines, and nothing of other orders and no message; it reports no error where the order
  -- was there, and that it was not found where it was not.
  pub delete-IsDeleted :
      (server : Server Amount) (id : ℕ) (db : Tables Amount)
      → IsConsistent db
      → server.fails (delete_row id) ≡ false
      → server.fails (rows_affected id) ≡ false
      → IsDeleted id db (delete server id db).1
        × ((delete server id db).0
            ≡ (if has (λ r. r.id) id db.orders then none else some (order_not_found id)))
  unfolding delete
  delete-IsDeleted server id db c sent counted = elim (Bool-cases (has (λ r. r.id) id db.orders)) [
    | inl there ↦ rw (sent, counted, there) (without_order-IsDeleted id db, refl)
    | inr missing ↦
        rw (sent, counted, missing)
          (
            record {
              order = find-has (λ r. r.id) id db.orders missing;
              lines = lines_none id db.orders db.products db.order_items missing c.references;
              other_orders = λ _ _. refl;
              other_lines = λ _ _. refl;
              messages = refl;
            },
            refl,
          )
  ]
