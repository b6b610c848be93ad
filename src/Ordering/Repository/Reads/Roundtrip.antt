-- ===== src/Ordering/Repository/Reads/Roundtrip.antt =====
-- internal/ordering/mssql/repository.go: ByID on what Save has written.
use mathlib.Core.List.{Perm}
use golang_microservices_eco.Prelude.{
  ℕ, ◌==◌, ◌≡◌, refl, ◌∙◌, false, Option, none, some, List, [], ◌∷◌, All, ok, Fallible,
}
use golang_microservices_eco.Platform.Messaging.{Envelope, EnvelopeError}
use golang_microservices_eco.Ordering.Domain.Order.{OrderItem, Order, Event, restore, build_order}
use golang_microservices_eco.Ordering.Rows.{OrderRow, order_row, scan_order, with_items}
use golang_microservices_eco.Ordering.Rows.Reading.{
  IsStorable, IsStoredLine, scan_order-order_row, scan_order_item-lem,
}
use golang_microservices_eco.Ordering.Tables.{Tables, find, sort}
use golang_microservices_eco.Ordering.Tables.Find.{merged}
use golang_microservices_eco.Ordering.Tables.Sort.{sort-Perm, sort-All}
use golang_microservices_eco.Ordering.Repository.{Server, Error, save, select_order, select_lines}
use golang_microservices_eco.Ordering.Repository.Saved.{written, AreWritten, done, next}
use golang_microservices_eco.Ordering.Repository.Saved.Complete.{
  updated, IsSaved, SaveEnded, refused, saved, saved_unconfirmed, save-SaveEnded,
}
use golang_microservices_eco.Ordering.Repository.Reads.{
  scan_items, by_line_id, items_for, read_order, by_id,
}

module _ {Amount : Type 0} where
  -- Lines whose prices the column holds as they are.
  abbrev pub KeepsPrices : Server Amount → List (OrderItem Amount) → Type 0
  KeepsPrices server = All (λ item. server.column item.price ≡ some item.price)

  written-same :
      (server : Server Amount) (order_id : ℕ) (item row : OrderItem Amount)
      → item.order_id ≡ order_id
      → server.column item.price ≡ some item.price
      → written server.column order_id item ≡ some row
      → row ≡ item
  written-same server order_id item row owner price h =
      let e : some item ≡ some row = rw (written, price, ← owner) at h in cc

  AreWritten-same :
      (server : Server Amount) (order_id : ℕ) (items rows : List (OrderItem Amount))
      → All (IsStoredLine order_id) items
      → KeepsPrices server items
      → AreWritten server order_id items rows
      → rows ≡ items
  AreWritten-same server order_id _ _ lines prices done = refl
  AreWritten-same server order_id _ _ lines prices (next item row items rows h ws) =
      rw
        (
          written-same server order_id item row lines.0.owner prices.0 h,
          AreWritten-same server order_id items rows lines.1 prices.1 ws,
        )
        refl

  scan_items-lem :
      (order_id : ℕ) (items : List (OrderItem Amount))
      → (order_id == 0) ≡ false
      → All (IsStoredLine order_id) items
      → scan_items items ≡ ok items
  unfolding scan_items
  scan_items-lem order_id [] h lines = refl
  scan_items-lem order_id (item ∷ items) h lines =
      rw (scan_order_item-lem order_id item h lines.0, scan_items-lem order_id items h lines.1) refl

  module _ (server : Server Amount)
      (map_event : Order Amount → ℕ → Event → Fallible EnvelopeError (Option Envelope)) where
    scan_order-merged :
        (now : ℕ) (order : Order Amount) (old : Option OrderRow)
        → IsStorable order
        → scan_order {Amount = Amount}
            (merged (λ r. r.id) (updated server map_event now order) (order_row now order) old)
          ≡ ok (record order { events = []; items = [] })
    unfolding order_row
    scan_order-merged now order none s = scan_order-order_row now order s
    scan_order-merged now order (some old) s = scan_order-order_row old.created_at order s

    SaveEnded-ok :
        (now : ℕ) (order : Order Amount) (db : Tables Amount)
        (r : Option Error × Order Amount × Tables Amount)
        → SaveEnded server map_event now order db r
        → r.0 ≡ none
        → IsSaved server map_event now order db r.2
    SaveEnded-ok now order db _ (refused cause) h = cc
    SaveEnded-ok now order db _ (saved after s) h = s
    SaveEnded-ok now order db _ (saved_unconfirmed after s) h = cc

    by_id-IsSaved :
        (reading : Server Amount) (now : ℕ) (order : Order Amount) (db after : Tables Amount)
        → IsStorable order
        → KeepsPrices server order.items
        → IsSaved server map_event now order db after
        → reading.fails (select_order order.id) ≡ false
        → reading.fails (select_lines order.id) ≡ false
        → by_id reading order.id after
          ≡ ok (record order { events = []; items = sort (by_line_id reading) order.items })
    unfolding by_id read_order items_for with_items restore build_order
    by_id-IsSaved reading now order db after s prices is_saved order_read lines_read =
        let same =
          AreWritten-same server order.id order.items is_saved.rows s.lines prices
            is_saved.are_rows in
        rw
          (
            order_read,
            is_saved.row,
            scan_order-merged now order (find (λ r. r.id) order.id db.orders) s,
            lines_read,
            is_saved.lines ∙ same,
            scan_items-lem order.id (sort (by_line_id reading) order.items) s.id
                (sort-All (by_line_id reading) (IsStoredLine order.id) order.items s.lines),
          )
          refl

    -- Where Save has reported no error for an order of values that the domain accepts, whose prices
    -- the column holds as they are, and the two queries of ByID do not fail, ByID returns the order
    -- as it was, without its events, and with the same lines, sorted by their ids.
    pub by_id-save :
        (reading : Server Amount) (now : ℕ) (order : Order Amount) (db : Tables Amount)
        → IsStorable order
        → KeepsPrices server order.items
        → (save server map_event now order db).0 ≡ none
        → reading.fails (select_order order.id) ≡ false
        → reading.fails (select_lines order.id) ≡ false
        → (by_id reading order.id (save server map_event now order db).2
            ≡ ok (record order { events = []; items = sort (by_line_id reading) order.items }))
          × Perm (sort (by_line_id reading) order.items) order.items
    by_id-save reading now order db s prices h order_read lines_read = (
      by_id-IsSaved reading now order db _ s prices
          (SaveEnded-ok now order db _ (save-SaveEnded server map_event now order db) h) order_read
          lines_read,
      sort-Perm (by_line_id reading) order.items,
    )
