-- ===== src/Ordering/Repository/Reads.antt =====
-- internal/ordering/mssql/repository.go: ByID, List and ByCustomer. The queries of one call read
-- the same tables.
pub mod Roundtrip
pub mod Pages
pub mod Bounds
use golang_microservices_eco.Prelude.{
  ℕ, ◌==◌, ltb, ℤ, pos, negsuc, Bool, ◌&&◌, ◌||◌, Option, none, some, List, [], ◌∷◌, keep, take,
  drop, length, ok, err, ◌>>=◌,
}
use golang_microservices_eco.Platform.Pagination.{Request, offset, limit}
use golang_microservices_eco.Ordering.Domain.Order.{OrderItem, Order}
use golang_microservices_eco.Ordering.Rows.{OrderRow, scan_order, scan_order_item, with_items}
use golang_microservices_eco.Ordering.Tables.{Tables, find, sort}
use golang_microservices_eco.Ordering.Repository.{
  Server, Result, order_not_found, database, count_orders, select_orders, select_order,
  select_lines, execute, readable,
}

-- OFFSET and FETCH NEXT; the database refuses an offset below zero.
unfoldable pub page_of : ℤ → ℕ → List OrderRow → Result (List OrderRow)
page_of (negsuc n) count rows = err database
page_of (pos n) count rows = ok (take count (drop n rows))

module _ {Amount : Type 0} where
  unfoldable pub scan_items : List (OrderItem Amount) → Result (List (OrderItem Amount))
  scan_items [] = ok []
  scan_items (row ∷ rows) = do
    item ← readable (scan_order_item row)
    items ← scan_items rows
    ok (item ∷ items)

  -- The first loop of collect.
  unfoldable pub scan_orders : List OrderRow → Result (List (Order Amount))
  scan_orders [] = ok []
  scan_orders (row ∷ rows) = do
    order ← readable (scan_order row)
    orders ← scan_orders rows
    ok (order ∷ orders)

  module _ (server : Server Amount) where
    -- ORDER BY Id, of lines.
    abbrev pub by_line_id : OrderItem Amount → OrderItem Amount → Bool
    by_line_id a b = server.before a.id b.id

    -- newestFirst.
    abbrev pub newest_first : OrderRow → OrderRow → Bool
    newest_first a b =
        ltb b.created_at a.created_at || (a.created_at == b.created_at && server.before a.id b.id)

    unfoldable pub items_for : ℕ → Tables Amount → Result (List (OrderItem Amount))
    items_for id db =
        execute server (select_lines id)
          (scan_items (sort by_line_id (keep (λ l. l.order_id == id) db.order_items)))

    unfoldable pub read_order : ℕ → Option OrderRow → Tables Amount → Result (Order Amount)
    read_order id none db = err (order_not_found id)
    read_order id (some row) db = do
      order ← readable (scan_order row)
      items ← items_for id db
      ok (with_items order items)

    -- ByID.
    unfoldable pub by_id : ℕ → Tables Amount → Result (Order Amount)
    unfolding read_order
    by_id id db =
        execute server (select_order id) (read_order id (find (λ r. r.id) id db.orders) db)

    -- The second loop of collect.
    unfoldable pub attach_items : List (Order Amount) → Tables Amount → Result (List (Order Amount))
    attach_items [] db = ok []
    attach_items (order ∷ orders) db = do
      items ← items_for order.id db
      rest ← attach_items orders db
      ok (with_items order items ∷ rest)

    unfoldable pub collect : List OrderRow → Tables Amount → Result (List (Order Amount))
    collect rows db = do orders ← scan_orders rows; attach_items orders db

    unfoldable pub list : Request → Tables Amount → Result (List (Order Amount) × ℕ)
    unfolding page_of collect
    list page db = do
      total ← execute server count_orders (ok (length db.orders))
      rows ←
          execute server select_orders
            (page_of (offset page) (limit page) (sort newest_first db.orders))
      orders ← collect rows db
      ok (orders, total)

    unfoldable pub by_customer : ℕ → Tables Amount → Result (List (Order Amount))
    unfolding collect
    by_customer customer_id db = do
      rows ←
          execute server select_orders
            (ok (sort newest_first (keep (λ r. r.customer_id == customer_id) db.orders)))
      collect rows db
