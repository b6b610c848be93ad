-- ===== src/Ordering/Repository/Saved.antt =====
-- internal/ordering/mssql/repository.go and outbox.go: what a transaction that went through has
-- written.
pub mod Complete
use golang_microservices_eco.Prelude.{
  ℕ, suc, ◌==◌, ◌≡◌, refl, sym, ap, ◌∙◌, arith, Bool-cases, true, false, inl, inr, Option, none,
  some, List, [], ◌∷◌, ◌++◌, append_assoc, append-nil, keep, negate, All, Fallible, ok, err,
  ok-injective, >>=-eq-ok, if◌then◌else◌, ◌&&◌, ◌>>=◌, map, subst,
}
use golang_microservices_eco.Platform.Messaging.{Envelope, EnvelopeError}
use golang_microservices_eco.Ordering.Domain.Order.{OrderItem, Order, Event}
use golang_microservices_eco.Ordering.Rows.{OrderRow, order_row}
use golang_microservices_eco.Ordering.Tables.{Tables, has, find, merge}
use golang_microservices_eco.Ordering.Tables.Find.{merged, find-merge, find-merge-other}
use golang_microservices_eco.Ordering.Repository.{
  Server, Statement, Result, insert_line, insert_message, upsert, clear_lines, insert_row,
  insert_order_item, insert_order_items, insert_outbox_message, stage, stage_events, mapped,
  upsert_order, clear, save_order,
}
use golang_microservices_eco.Ordering.Repository.Transaction.{execute-ok}

-- The envelopes of the announced events among these, in order.
abbrev pub prepend : Option Envelope → List Envelope → List Envelope
prepend none envelopes = envelopes
prepend (some envelope) envelopes = envelope ∷ envelopes

unfoldable pub announcements :
    (ℕ → Event → Fallible EnvelopeError (Option Envelope))
    → ℕ
    → List Event
    → Fallible EnvelopeError (List Envelope)
announcements map_event i [] = ok []
announcements map_event i (event ∷ events) = do
  envelope ← map_event i event
  envelopes ← announcements map_event (suc i) events
  ok (prepend envelope envelopes)

-- A line as the table holds it.
abbrev pub written :
    {Amount : Type 0} → (Amount → Option Amount) → ℕ → OrderItem Amount → Option (OrderItem Amount)
written column order_id item = elim (column item.price) [
  | none ↦ none
  | some price ↦ some (record item { order_id = order_id; price = price })
]

module _ {Amount : Type 0} (server : Server Amount) where
  -- The lines of an order as the table holds them.
  pub data AreWritten (order_id : ℕ)
      : List (OrderItem Amount) → List (OrderItem Amount) → Type 0 where
    done : AreWritten order_id [] []
    next :
        (item row : OrderItem Amount) (items rows : List (OrderItem Amount))
        → written server.column order_id item ≡ some row
        → AreWritten order_id items rows
        → AreWritten order_id (item ∷ items) (row ∷ rows)

  insert_row-ok :
      (row : OrderItem Amount) (price : Option Amount) (db after : Tables Amount)
      → insert_row row db price ≡ ok after
      → (p : Amount) × (price ≡ some p)
        × (after ≡ record db { order_items = db.order_items ++ record row { price = p } ∷ [] })
  unfolding insert_row
  insert_row-ok row none db after h = cc
  insert_row-ok row (some p) db after h =
      elim (Bool-cases (has (λ l. l.id) row.id db.order_items)) [
        | inl taken ↦ cc (rw taken at h)
        | inr fresh ↦
            elim (Bool-cases (
              has (λ r. r.id) row.order_id db.orders
              && has (λ p. p.id) row.product_id db.products)) [
                | inr missing ↦ cc (rw (fresh, missing) at h)
                | inl there ↦ (p, refl, sym (ok-injective (rw (fresh, there) at h)))
              ]
      ]

  written-some :
      (order_id : ℕ) (item : OrderItem Amount) (p : Amount)
      → server.column item.price ≡ some p
      → written server.column order_id item ≡ some (record item { order_id = order_id; price = p })
  written-some order_id item p h = rw (written, h) refl

  pub insert_order_items-ok :
      (order_id : ℕ) (items : List (OrderItem Amount)) (db after : Tables Amount)
      → insert_order_items server order_id items db ≡ ok after
      → (rows : List (OrderItem Amount)) × AreWritten order_id items rows
        × (after ≡ record db { order_items = db.order_items ++ rows })
  unfolding insert_order_items insert_order_item
  insert_order_items-ok order_id [] db after h = (
    [],
    done,
    sym (ok-injective h)
        ∙ ap (λ l. record db { order_items = l }) (sym (append-nil db.order_items)),
  )
  insert_order_items-ok order_id (item ∷ items) db after h =
      let row = record item { order_id = order_id } in
      let (db', added, rest) = >>=-eq-ok (insert_order_item server order_id item db) _ h in
      let (p, is_p, is_db') =
        insert_row-ok row (server.column item.price) db db'
          (execute-ok server (insert_line row) _ db' added) in
      let (rows, are_rows, is_after) = insert_order_items-ok order_id items db' after rest in
      (
        record row { price = p } ∷ rows,
        next item (record row { price = p }) items rows (written-some order_id item p is_p)
            are_rows,
        is_after
            ∙ rw is_db' (
                ap (λ l. record db { order_items = l })
                  (append_assoc db.order_items (record row { price = p } ∷ []) rows)),
      )

  stage-ok :
      (envelope : Option Envelope) (db after : Tables Amount)
      → stage server envelope db ≡ ok after
      → after ≡ record db { outbox_messages = db.outbox_messages ++ prepend envelope [] }
  unfolding insert_outbox_message
  stage-ok none db after h =
      sym (ok-injective h)
      ∙ ap (λ l. record db { outbox_messages = l }) (sym (append-nil db.outbox_messages))
  stage-ok (some envelope) db after h =
      let checked = execute-ok server (insert_message envelope) _ after h in
      elim (Bool-cases (has (λ m. m.id) envelope.id db.outbox_messages)) [
        | inl taken ↦ cc (rw taken at checked)
        | inr fresh ↦ sym (ok-injective (rw fresh at checked))
      ]

  prepend-append :
      (envelope : Option Envelope) (ms es : List Envelope)
      → (ms ++ prepend envelope []) ++ es ≡ ms ++ prepend envelope es
  prepend-append none ms es = ap (λ l. l ++ es) (append-nil ms)
  prepend-append (some envelope) ms es = append_assoc ms (envelope ∷ []) es

  mapped-ok : {A : Type 0} (r : Fallible EnvelopeError A) (a : A) → mapped r ≡ ok a → r ≡ ok a
  mapped-ok (ok b) a h = ap (λ c. ok c) (ok-injective h)
  mapped-ok (err e) a h = cc

  module _ (map_event : Order Amount → ℕ → Event → Fallible EnvelopeError (Option Envelope)) where
    pub stage_events-ok :
        (order : Order Amount) (i : ℕ) (events : List Event) (db after : Tables Amount)
        → stage_events server map_event order i events db ≡ ok after
        → (es : List Envelope) × (announcements (map_event order) i events ≡ ok es)
          × (after ≡ record db { outbox_messages = db.outbox_messages ++ es })
    unfolding stage_events announcements
    stage_events-ok order i [] db after h = (
      [],
      refl,
      sym (ok-injective h)
          ∙ ap (λ l. record db { outbox_messages = l }) (sym (append-nil db.outbox_messages)),
    )
    stage_events-ok order i (event ∷ events) db after h =
        let (envelope, is_mapped, rest) = >>=-eq-ok (mapped (map_event order i event)) _ h in
        let (db', staged, later) = >>=-eq-ok (stage server envelope db) _ rest in
        let is_db' = stage-ok envelope db db' staged in
        let (es, are_es, is_after) = stage_events-ok order (suc i) events db' after later in
        (
          prepend envelope es,
          rw (mapped-ok (map_event order i event) envelope is_mapped, are_es) refl,
          is_after
              ∙ rw is_db' (
                  ap (λ l. record db { outbox_messages = l })
                    (prepend-append envelope db.outbox_messages es)),
        )
