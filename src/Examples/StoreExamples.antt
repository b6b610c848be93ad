-- ===== src/Examples/StoreExamples.antt =====
-- Orders in the tables of internal/ordering/mssql, in whole amounts.
use mathlib.Core.List.{Perm}
use golang_microservices_eco.Prelude.{
  ℕ, ◌≤◌, ◌≡◌, refl, ℤ, pos, [], ◌∷◌, true, false, Option, some, none, arith, ltb, length,
  if◌then◌else◌, ok, Fallible, inr, take, is_blank,
}
use golang_microservices_eco.Platform.Decimal.{whole}
use golang_microservices_eco.Platform.Messaging.{Header, Envelope, EnvelopeError, new_envelope}
use golang_microservices_eco.Platform.Pagination.{
  Request, max_page_size, limit, offset, normalized, size_of, index_of, to_int64,
}
use golang_microservices_eco.Ordering.Domain.Values.{
  Customer, Product, new_address, new_payment, new_order_id, new_customer_id, new_product_id,
  new_order_item_id, is_zero,
}
use golang_microservices_eco.Ordering.Domain.Status.{is_valid, parse_order_status, status_string}
use golang_microservices_eco.Ordering.Orders.Views.{OrderView}
use golang_microservices_eco.Ordering.Domain.Order.{
  order_updated, Order, Event, new_order, add, raise, restore, build_order,
}
use golang_microservices_eco.Ordering.Integration.{Encoder, map_event}
use golang_microservices_eco.Ordering.Rows.{
  order_row, scan_order, scan_order_item, with_items, scan_address, scan_payment, payment_row,
  nullable, deref,
}
use golang_microservices_eco.Ordering.Rows.Reading.{IsStorable}
use golang_microservices_eco.Ordering.Tables.{Tables, has, find, merge, sort, insert}
use golang_microservices_eco.Ordering.Repository.{
  finish, Server, order_not_found, save, place, delete, in_tx, save_order, upsert_order, clear,
  insert_order_items, insert_order_item, insert_row, insert_outbox_message, stage_events,
}
use golang_microservices_eco.Ordering.Repository.Integrity.{IsConsistent}
use golang_microservices_eco.Ordering.Repository.Integrity.Calls.{saves, perform_all-IsConsistent}
use golang_microservices_eco.Ordering.Repository.Resaved.{save-works}
use golang_microservices_eco.Ordering.Repository.Saved.Complete.{IsSaved, SaveEnded, save-SaveEnded}
use golang_microservices_eco.Ordering.Repository.Deleted.{IsDeleted, delete-IsDeleted}
use golang_microservices_eco.Ordering.Repository.Placed.{place-known}
use golang_microservices_eco.Ordering.Repository.Reads.{
  by_id, by_line_id, list, page_of, collect, scan_orders, attach_items, items_for, scan_items,
}
use golang_microservices_eco.Ordering.Repository.Reads.Roundtrip.{by_id-save}
use golang_microservices_eco.Ordering.Repository.Reads.Pages.{first_pages, first_pages-take}
use golang_microservices_eco.Ordering.Repository.Reads.Bounds.{list_bounds}
use golang_microservices_eco.Ordering.Orders.Handlers
use golang_microservices_eco.Ordering.Orders.Handlers.{
  address_of, payment_of, add_lines, CreateOrderCommand, UpdateOrderCommand, create_order,
  get_order_by_id, update_order,
}
use golang_microservices_eco.Ordering.Orders.Handlers.Updated.{
  UpdateEnded, update_order-UpdateEnded,
}
use golang_microservices_eco.Ordering.Orders.Handlers.Shown.{IsShown, get_order_by_id-create_order}
use golang_microservices_eco.Examples.OrderExamples.{home, card}

-- A database that takes every statement and whose columns hold whole amounts.
abbrev pub server : Server ℤ
server = record {
  fails = λ _. false;
  commit_kept = false;
  column = λ price. some price;
  before = ltb;
}

abbrev encoder : Encoder ℤ
encoder = record { created = λ _. some []; updated = λ _. some []; uuid_text = λ _. "order" }

abbrev headers : ℕ → Header
headers i = record { id = 100; occurred_on_utc = 0; correlation_id = "request" }

abbrev pub events_of : Order ℤ → ℕ → Event → Fallible EnvelopeError (Option Envelope)
events_of = map_event true encoder headers

abbrev ada : Customer
ada = record { id = 2; name = "Ada Lovelace"; email = "ada@example.com" }

abbrev lamp : Product ℤ
lamp = record { id = 5; name = "Lamp"; price = pos 30 }

abbrev pub stock : Tables ℤ
stock = record {
  customers = ada ∷ [];
  products = lamp ∷ [];
  orders = [];
  order_items = [];
  outbox_messages = [];
}

-- Two lines of one product, the second with the lower id.
abbrev order : Order ℤ
order = (add 11 5 (pos 1) (pos 7) (add 12 5 (pos 2) (pos 10) (new_order 1 2 home home card)).0).0

stock-IsConsistent : IsConsistent stock
unfolding has
stock-IsConsistent = record {
  customers = (refl, tt);
  products = (refl, tt);
  orders = tt;
  lines = tt;
  messages = tt;
  buyers = tt;
  references = tt;
}

save-SaveEnded_example :
    SaveEnded server events_of 5 order stock (save server events_of 5 order stock)
save-SaveEnded_example = save-SaveEnded server events_of 5 order stock

place-known_example :
    find
      (λ p. p.id)
      5
      (place server events_of 5 order ada (record lamp { price = pos 1 } ∷ []) stock).2.products
    ≡ some lamp
unfolding find
place-known_example =
    place-known server events_of 5 order ada (record lamp { price = pos 1 } ∷ []) stock 5 lamp refl

abbrev stored : Tables ℤ
stored = (save server events_of 5 order stock).2

-- The order with a change, and announcements of their own.
abbrev changed : Order ℤ
changed = record order { events = order_updated ∷ [] }

abbrev later : Order ℤ → ℕ → Event → Fallible EnvelopeError (Option Envelope)
later =
    map_event true encoder
      (λ i. record { id = 101; occurred_on_utc = 0; correlation_id = "request" })

save-works_example :
    (after : Tables ℤ) × (save server later 6 changed stored
      ≡ (none, record changed { events = [] }, after))
    × IsSaved server later 6 changed stored after
unfolding save in_tx save_order upsert_order clear insert_order_items insert_order_item insert_row
    stage_events insert_outbox_message finish merge has map_event new_envelope new_order add
    order_row
save-works_example =
    save-works server later 6 changed order_updated _ stored (λ s. refl) (λ a. (a, refl)) refl
      (refl, (refl, tt)) (refl, (refl, tt)) (refl, (refl, tt)) refl refl (λ e h. ground arith)

delete-IsDeleted_example :
    IsDeleted 1 stored (delete server 1 stored).1
    × ((delete server 1 stored).0
        ≡ (if has (λ r. r.id) 1 stored.orders then none else some (order_not_found 1)))
delete-IsDeleted_example =
    delete-IsDeleted server 1 stored
      (perform_all-IsConsistent (saves server events_of 5 order ∷ []) stock stock-IsConsistent) refl
      refl

first_pages-take_example :
    first_pages 2 1 (order_row 5 order ∷ order_row 6 order ∷ order_row 7 order ∷ [])
    ≡ ok (take 2 (order_row 5 order ∷ order_row 6 order ∷ order_row 7 order ∷ []))
first_pages-take_example =
    first_pages-take 2 1 (order_row 5 order ∷ order_row 6 order ∷ order_row 7 order ∷ [])
      (omega arith) (omega arith) (omega arith)

order-IsStorable : IsStorable order
unfolding add new_order is_valid new_address new_payment is_blank
order-IsStorable = record {
  id = refl;
  customer = refl;
  status = refl;
  shipping = refl;
  billing = refl;
  payment = inr refl;
  lines = (
    record { id = refl; owner = refl; product = refl },
    (record { id = refl; owner = refl; product = refl }, tt),
  );
}

by_id-save_example :
    (by_id server 1 stored
      ≡ ok (record order { events = []; items = sort (by_line_id server) order.items }))
    × Perm (sort (by_line_id server) order.items) order.items
unfolding add new_order raise save in_tx save_order upsert_order clear insert_order_items
    insert_order_item insert_row insert_outbox_message stage_events map_event new_envelope order_row
    has merge
by_id-save_example =
    by_id-save server events_of server 5 order stock order-IsStorable (refl, (refl, tt)) refl refl
      refl

-- One order per page.
abbrev page : Request
page = record { page_index = pos 0; page_size = pos 1 }

list_bounds_example :
    (length (order ∷ []) ≤ limit page) × (limit page ≤ max_page_size) × (1 ≡ length (stored.orders))
unfolding add new_order raise save in_tx save_order upsert_order clear insert_order_items
    insert_order_item insert_row insert_outbox_message stage_events map_event new_envelope order_row
    has merge list offset limit normalized size_of index_of to_int64 page_of collect scan_orders
    attach_items items_for scan_items scan_order scan_order_item sort insert with_items restore
    build_order new_order_id new_customer_id new_product_id new_order_item_id parse_order_status
    status_string scan_address scan_payment payment_row new_address new_payment is_blank nullable
    deref is_zero
list_bounds_example =
    list_bounds server page stored
      (record order { events = []; items = sort (by_line_id server) order.items } ∷ []) 1 refl

abbrev create : CreateOrderCommand ℤ
create = record {
  customer_id = 2;
  shipping_address = record {
    first_name = "Ada";
    last_name = "Lovelace";
    email_address = "ada@example.com";
    address_line = "1 Main St";
    country = "UK";
    state = "";
    zip_code = "1000";
  };
  billing_address = record {
    first_name = "Ada";
    last_name = "Lovelace";
    email_address = "ada@example.com";
    address_line = "1 Main St";
    country = "UK";
    state = "";
    zip_code = "1000";
  };
  payment = record { payment_token = "pt_1"; card_last4 = "4242"; payment_method = pos 1 };
  items = record { product_id = 5; quantity = pos 2; price = pos 10 } ∷ [];
}

create_order-example_ok : (create_order server events_of 5 1 (λ i. 11) create stock).0 ≡ ok 1
unfolding create_order Handlers.build_order add_lines address_of payment_of new_order_id
    new_customer_id new_product_id new_address new_payment is_blank add new_order raise save in_tx
    save_order upsert_order clear insert_order_items insert_order_item insert_row
    insert_outbox_message stage_events map_event new_envelope order_row has merge
create_order-example_ok = refl

get_order_by_id-create_order_example :
    (◌≡◌ {A = ℕ} 1 1)
    × ((view : OrderView ℤ) × (get_order_by_id server 1
            (create_order server events_of 5 1 (λ i. 11) create stock).1
          ≡ ok view)
        × IsShown 1 create view)
get_order_by_id-create_order_example =
    get_order_by_id-create_order server events_of server 5 1 (λ i. 11) create stock 1 (λ i. refl)
      (refl, tt) create_order-example_ok refl refl

abbrev paid : UpdateOrderCommand
paid = record {
  id = 1;
  shipping_address = create.shipping_address;
  billing_address = create.billing_address;
  payment = create.payment;
  status = "Completed";
}

update_order-UpdateEnded_example :
    UpdateEnded server events_of 6 paid stored (update_order server events_of 6 paid stored)
update_order-UpdateEnded_example = update_order-UpdateEnded server events_of 6 paid stored
