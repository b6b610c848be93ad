-- ===== src/Ordering/Domain/Order.antt =====
-- internal/ordering/domain/order.go and the event recording of events.go. An event carries a
-- pointer to the aggregate that raised it, so an event is its name and the aggregate is the owner.
-- The id that uuid.New draws for a line is an argument. The getters are the fields.
pub mod Compaction
pub mod Invariant
use golang_microservices_eco.Prelude.{
  ℕ, zero, suc, ◌==◌, ℤ, true, false, if◌then◌else◌, List, [], ◌∷◌, ◌++◌, Option, none, some,
  negate, is_nonpositive, length, take, get_elem?, set,
}
use golang_microservices_eco.Platform.Decimal.{Decimal}
use golang_microservices_eco.Ordering.Domain.Values.{
  Error, quantity_not_positive, price_not_positive, unknown_status, Address, Payment, no_payment,
}
use golang_microservices_eco.Ordering.Domain.Status.{is_valid, draft, pending}

pub record OrderItem (Amount : Type 0) : Type 0 where
  pub id : ℕ
  pub order_id : ℕ
  pub product_id : ℕ
  pub quantity : ℤ
  pub price : Amount

pub data Event : Type 0 where
  order_created order_updated : Event

pub record Order (Amount : Type 0) : Type 0 where
  pub events : List Event
  pub id : ℕ
  pub customer_id : ℕ
  pub shipping_address : Address
  pub billing_address : Address
  pub payment : Payment
  pub status : ℤ
  pub items : List (OrderItem Amount)

module _ {Amount : Type 0} where
  unfoldable pub raise : Event → Order Amount → Order Amount
  raise e o = record o { events = o.events ++ e ∷ [] }

  -- PullEvents: the recorded events, and the aggregate without them.
  unfoldable pub pull_events : Order Amount → List Event × Order Amount
  pull_events o = (o.events, record o { events = [] })

  unfoldable pub build_order : ℕ → ℕ → Address → Address → Payment → ℤ → Order Amount
  build_order id customer_id shipping_address billing_address payment status = record {
    events = [];
    id = id;
    customer_id = customer_id;
    shipping_address = shipping_address;
    billing_address = billing_address;
    payment = payment;
    status = status;
    items = [];
  }

  new_unpaid_order : ℕ → ℕ → Address → Address → Order Amount
  unfolding raise build_order
  new_unpaid_order id customer_id shipping billing =
      raise order_created (build_order id customer_id shipping billing no_payment draft)

  unfoldable pub new_order : ℕ → ℕ → Address → Address → Payment → Order Amount
  unfolding raise build_order
  new_order id customer_id shipping billing payment =
      raise order_created (build_order id customer_id shipping billing payment pending)

  unfoldable pub restore :
      ℕ → ℕ → Address → Address → Payment → ℤ → List (OrderItem Amount) → Order Amount
  unfolding build_order
  restore id customer_id shipping billing payment status items =
      record (build_order id customer_id shipping billing payment status) { items = items }

  -- Update: the new order and the error, if there is one.
  unfoldable pub update :
      Address → Address → Payment → ℤ → Order Amount → Order Amount × Option Error
  unfolding raise is_valid
  update shipping billing payment status o =
      if negate (is_valid status) then (o, some (unknown_status status)) else (
        raise order_updated (record o {
          shipping_address = shipping;
          billing_address = billing;
          payment = payment;
          status = status;
        }),
        none,
      )

  -- The loop of Remove over its n remaining lines: it reads line i and writes what it keeps at k,
  -- in the same backing array.
  compact : ℕ → ℕ → ℕ → ℕ → List (OrderItem Amount) → ℕ × List (OrderItem Amount)
  compact product_id zero i k backing = (k, backing)
  compact product_id (suc n) i k backing = elim (get_elem? backing i) [
    | none ↦ (k, backing)
    | some item ↦ elim (item.product_id == product_id) [
      | true ↦ compact product_id n (suc i) k backing
      | false ↦ compact product_id n (suc i) (suc k) (set backing k item)
    ]
  ]

  unfoldable pub remove : ℕ → Order Amount → Order Amount
  unfolding compact
  remove product_id o =
      let (k, backing) = compact product_id (length o.items) 0 0 o.items in
      record o { items = take k backing }

module _ {Amount : Type 0} ⦃d : Decimal Amount⦄ where
  unfoldable pub total_from : Amount → List (OrderItem Amount) → Amount
  total_from total [] = total
  total_from total (item ∷ items) =
      total_from (d.add total (d.mul item.price (d.new_from_int item.quantity))) items

  unfoldable pub total_price : Order Amount → Amount
  unfolding total_from
  total_price o = total_from d.zero o.items

  -- Add: the new order and the error, if there is one. `item_id` is what uuid.New draws.
  unfoldable pub add : ℕ → ℕ → ℤ → Amount → Order Amount → Order Amount × Option Error
  add item_id product_id quantity price o =
      if is_nonpositive quantity
      then (o, some quantity_not_positive)
      else if d.less_than_or_equal price d.zero
      then (o, some price_not_positive)
      else (
        record o {
          items =
              o.items
              ++ record {
                id = item_id;
                order_id = o.id;
                product_id = product_id;
                quantity = quantity;
                price = price;
              }
                ∷ [];
        },
        none,
      )
