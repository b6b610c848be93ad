-- ===== src/Ordering/Repository/Reads/Bounds.antt =====
-- internal/ordering/mssql/repository.go: the size of what List returns.
use golang_microservices_eco.Prelude.{
  ℕ, zero, suc, ◌≤◌, ◌≡◌, refl, sym, ap, ◌∙◌, subst, arith, ℤ, pos, negsuc, List, [], ◌∷◌, length,
  length-take, drop, ok, ok-injective, >>=-eq-ok,
}
use golang_microservices_eco.Platform.Pagination.{
  Request, max_page_size, limit, offset, normalized, size_of,
}
use golang_microservices_eco.Ordering.Domain.Order.{Order}
use golang_microservices_eco.Ordering.Rows.{OrderRow, scan_order}
use golang_microservices_eco.Ordering.Tables.{Tables, sort}
use golang_microservices_eco.Ordering.Repository.{
  Server, count_orders, select_orders, readable, execute,
}
use golang_microservices_eco.Ordering.Repository.Transaction.{execute-ok}
use golang_microservices_eco.Ordering.Repository.Reads.{
  scan_orders, attach_items, collect, page_of, newest_first, list, items_for,
}

size_of_bounds : (n : ℤ) → size_of n ≤ max_page_size
unfolding size_of
size_of_bounds (pos zero) = omega arith
size_of_bounds (pos (suc n)) = ground arith
size_of_bounds (negsuc n) = omega arith

limit_bound : (r : Request) → limit r ≤ max_page_size
unfolding limit normalized
limit_bound r = size_of_bounds r.page_size

page_of-length :
    (start : ℤ) (count : ℕ) (rows page : List OrderRow)
    → page_of start count rows ≡ ok page
    → length page ≤ count
unfolding page_of
page_of-length (pos n) count rows page h =
    subst (λ l. length l ≤ count) (ok-injective h) (length-take count (drop n rows))
page_of-length (negsuc n) count rows page h = cc

module _ {Amount : Type 0} where
  length-scan_orders :
      (rows : List OrderRow) (orders : List (Order Amount))
      → scan_orders rows ≡ ok orders
      → length orders ≡ length rows
  unfolding scan_orders
  length-scan_orders [] orders h = subst (λ l. length l ≡ 0) (ok-injective h) refl
  length-scan_orders (row ∷ rows) orders h =
      let (order, _, rest) = >>=-eq-ok (readable (scan_order row)) _ h in
      let (others, scanned, all) = >>=-eq-ok (scan_orders rows) _ rest in
      subst (λ l. length l ≡ suc (length rows)) (ok-injective all)
        (ap suc (length-scan_orders rows others scanned))

  module _ (server : Server Amount) where
    length-attach_items :
        (orders read : List (Order Amount)) (db : Tables Amount)
        → attach_items server orders db ≡ ok read
        → length read ≡ length orders
    unfolding attach_items
    length-attach_items [] read db h = subst (λ l. length l ≡ 0) (ok-injective h) refl
    length-attach_items (order ∷ orders) read db h =
        let (items, _, rest) = >>=-eq-ok (items_for server order.id db) _ h in
        let (others, attached, all) = >>=-eq-ok (attach_items server orders db) _ rest in
        subst (λ l. length l ≡ suc (length orders)) (ok-injective all)
          (ap suc (length-attach_items orders others db attached))

    length-collect :
        (rows : List OrderRow) (orders : List (Order Amount)) (db : Tables Amount)
        → collect server rows db ≡ ok orders
        → length orders ≡ length rows
    unfolding collect
    length-collect rows orders db h =
        let (scanned, is_scanned, rest) = >>=-eq-ok (scan_orders rows) _ h in
        length-attach_items scanned orders db rest ∙ length-scan_orders rows scanned is_scanned

    -- Whatever page is asked for, a list that succeeds has at most as many orders as the page may
    -- have, which is at most 100, and its count is the number of stored orders.
    pub list_bounds :
        (page : Request) (db : Tables Amount) (orders : List (Order Amount)) (total : ℕ)
        → list server page db ≡ ok (orders, total)
        → (length orders ≤ limit page) × (limit page ≤ max_page_size) × (total ≡ length db.orders)
    unfolding list
    list_bounds page db orders total h =
        let (count, counted, rest) =
          >>=-eq-ok (execute server count_orders (ok (length db.orders))) _ h in
        let (rows, selected, rest') =
          >>=-eq-ok
            (execute server select_orders
              (page_of (offset page) (limit page) (sort (newest_first server) db.orders)))
            _ rest in
        let (read, collected, all) = >>=-eq-ok (collect server rows db) _ rest' in
        let short =
          page_of-length (offset page) (limit page) (sort (newest_first server) db.orders) rows
            (execute-ok server select_orders _ rows selected) in
        let e : (read, count) ≡ (orders, total) = ok-injective all in
        let is_count : length db.orders ≡ count =
          ok-injective (execute-ok server count_orders _ count counted) in
        (
          subst (λ l. length l ≤ limit page) (ap (λ p. p.0) e)
              (rw (length-collect rows read db collected) short),
          limit_bound page,
          sym (ap (λ p. p.1) e) ∙ sym is_count,
        )
