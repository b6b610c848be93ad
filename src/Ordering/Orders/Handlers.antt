-- ===== src/Ordering/Orders/Handlers.antt =====
-- internal/ordering/orders: contract.go, orders.go, create_order.go, update_order.go,
-- delete_order.go and the three queries, over the repository of internal/ordering/mssql. The ids
-- that uuid.New draws are arguments. One request runs at a time; its queries and its save meet the
-- same tables.
pub mod Created
pub mod Updated
pub mod Shown
use golang_microservices_eco.Prelude.{
  ℕ, suc, String, ℤ, List, [], ◌∷◌, Option, none, some, Fallible, ok, err, ◌>>=◌,
}
use golang_microservices_eco.Platform.Decimal.{Decimal}
use golang_microservices_eco.Platform.Messaging.{Envelope, EnvelopeError}
use golang_microservices_eco.Platform.Pagination.{Request, Page, new_result}
use golang_microservices_eco.Ordering.Domain.Values
use golang_microservices_eco.Ordering.Domain.Values.{
  Address, Payment, new_address, new_payment, new_order_id, new_customer_id, new_product_id,
}
use golang_microservices_eco.Ordering.Domain.Status.{parse_order_status}
use golang_microservices_eco.Ordering.Domain.Order.{Order, Event, new_order, add, update}
use golang_microservices_eco.Ordering.Tables.{Tables}
use golang_microservices_eco.Ordering.Repository
use golang_microservices_eco.Ordering.Repository.{Server, save, delete}
use golang_microservices_eco.Ordering.Repository.Reads.{by_id, list, by_customer}
use golang_microservices_eco.Ordering.Orders.Views.{OrderView, view_of, views_of}

-- What a handler reports: a rule of the domain that the caller's input breaks, or an error of the
-- repository.
pub data Error : Type 0 where
  bad_request : Values.Error → Error
  repository : Repository.Error → Error

abbrev pub Result : Type 0 → Type 0
Result A = Fallible Error A

pub record AddressInput : Type 0 where
  pub first_name : String
  pub last_name : String
  pub email_address : String
  pub address_line : String
  pub country : String
  pub state : String
  pub zip_code : String

pub record PaymentInput : Type 0 where
  pub payment_token : String
  pub card_last4 : String
  pub payment_method : ℤ

pub record LineInput (Amount : Type 0) : Type 0 where
  pub product_id : ℕ
  pub quantity : ℤ
  pub price : Amount

pub record CreateOrderCommand (Amount : Type 0) : Type 0 where
  pub customer_id : ℕ
  pub shipping_address : AddressInput
  pub billing_address : AddressInput
  pub payment : PaymentInput
  pub items : List (LineInput Amount)

pub record UpdateOrderCommand : Type 0 where
  pub id : ℕ
  pub shipping_address : AddressInput
  pub billing_address : AddressInput
  pub payment : PaymentInput
  pub status : String

-- AddressInput.toDomain.
unfoldable pub address_of : AddressInput → Values.Result Address
address_of a =
    new_address a.first_name a.last_name a.email_address a.address_line a.country a.state a.zip_code

-- PaymentInput.toDomain.
unfoldable pub payment_of : PaymentInput → Values.Result Payment
payment_of p = new_payment p.payment_token p.card_last4 p.payment_method

-- clientError, of a result of the domain.
abbrev pub client : {A : Type 0} → Values.Result A → Result A
client (ok a) = ok a
client (err e) = err (bad_request e)

abbrev pub stored : {A : Type 0} → Repository.Result A → Result A
stored (ok a) = ok a
stored (err e) = err (repository e)

-- What a handler answers where the repository reports this.
abbrev pub answer : {A : Type 0} → A → Option Repository.Error → Result A
answer a none = ok a
answer a (some e) = err (repository e)

-- An order behind a command of the aggregate, or its error.
abbrev pub accepted : {A : Type 0} → A × Option Values.Error → Values.Result A
accepted (order, none) = ok order
accepted (order, some e) = err e

module _ {Amount : Type 0} ⦃d : Decimal Amount⦄ where
  -- The loop of buildOrder, from the line with this number.
  unfoldable pub add_lines :
      (ℕ → ℕ) → ℕ → List (LineInput Amount) → Order Amount → Values.Result (Order Amount)
  add_lines draws i [] order = ok order
  add_lines draws i (line ∷ lines) order = do
    product_id ← new_product_id line.product_id
    order' ← accepted (add (draws i) product_id line.quantity line.price order)
    add_lines draws (suc i) lines order'

  -- buildOrder.
  unfoldable pub build_order :
      ℕ → (ℕ → ℕ) → CreateOrderCommand Amount → Values.Result (Order Amount)
  unfolding address_of payment_of
  build_order order_id draws c = do
    id ← new_order_id order_id
    customer_id ← new_customer_id c.customer_id
    shipping ← address_of c.shipping_address
    billing ← address_of c.billing_address
    payment ← payment_of c.payment
    add_lines draws 0 c.items (new_order id customer_id shipping billing payment)

module _ {Amount : Type 0} where
  unfoldable pub apply_update : Order Amount → UpdateOrderCommand → Values.Result (Order Amount)
  unfolding address_of payment_of
  apply_update order c = do
    shipping ← address_of c.shipping_address
    billing ← address_of c.billing_address
    payment ← payment_of c.payment
    status ← parse_order_status c.status
    accepted (update shipping billing payment status order)

module _ {Amount : Type 0} (server : Server Amount)
    (map_event : Order Amount → ℕ → Event → Fallible EnvelopeError (Option Envelope)) where
  -- The end of a handler that saves what it has made.
  unfoldable pub save_made :
      {A : Type 0}
      → ℕ
      → (Order Amount → A)
      → Tables Amount
      → Result (Order Amount)
      → Result A × Tables Amount
  save_made now result db (err e) = (err e, db)
  save_made now result db (ok order) =
      let (failure, _, after) = save server map_event now order db in
      (answer (result order) failure, after)

  -- CreateOrderHandler.Handle.
  unfoldable pub create_order :
      ⦃d : Decimal Amount⦄
      → ℕ
      → ℕ
      → (ℕ → ℕ)
      → CreateOrderCommand Amount
      → Tables Amount
      → Result ℕ × Tables Amount
  unfolding save_made
  create_order now order_id draws c db =
      save_made now (λ order. order.id) db (client (build_order order_id draws c))

  unfoldable pub load_updated : UpdateOrderCommand → Tables Amount → Result (Order Amount)
  load_updated c db = do
    id ← client (new_order_id c.id)
    order ← stored (by_id server id db)
    client (apply_update order c)

  -- UpdateOrderHandler.Handle.
  unfoldable pub update_order : ℕ → UpdateOrderCommand → Tables Amount → Result Unit × Tables Amount
  unfolding save_made load_updated
  update_order now c db = save_made now (λ _. tt) db (load_updated c db)

module _ {Amount : Type 0} (server : Server Amount) where
  delete_found : Values.Result ℕ → Tables Amount → Result Unit × Tables Amount
  delete_found (err e) db = (err (bad_request e), db)
  delete_found (ok id) db = let (failure, after) = delete server id db in (answer tt failure, after)

  -- DeleteOrderHandler.Handle.
  delete_order : ℕ → Tables Amount → Result Unit × Tables Amount
  unfolding delete_found
  delete_order id db = delete_found (new_order_id id) db

module _ {Amount : Type 0} ⦃d : Decimal Amount⦄ (server : Server Amount) where
  -- GetOrderByIDHandler.Handle.
  unfoldable pub get_order_by_id : ℕ → Tables Amount → Result (OrderView Amount)
  get_order_by_id order_id db = do
    id ← client (new_order_id order_id)
    order ← stored (by_id server id db)
    ok (view_of order)

  -- GetOrdersHandler.Handle.
  unfoldable pub get_orders : Request → Tables Amount → Result (Page (OrderView Amount))
  get_orders page db = do
    found ← stored (list server page db)
    ok (new_result page found.1 (views_of found.0))

  -- GetOrdersByCustomerHandler.Handle.
  unfoldable pub get_orders_by_customer : ℕ → Tables Amount → Result (List (OrderView Amount))
  get_orders_by_customer id db = do
    customer_id ← client (new_customer_id id)
    orders ← stored (by_customer server customer_id db)
    ok (views_of orders)
