-- ===== src/Ordering/Domain/Order/Invariant.antt =====
-- internal/ordering/domain/order.go: commands on an order, and the rules on its lines, its status
-- and its events.
use golang_microservices_eco.Prelude.{
  ℕ, ℤ, ◌≡◌, refl, ◌∙◌, true, false, List, [], ◌∷◌, ◌++◌, Option, some, none, arith, is_nonpositive,
  All, All-append, All-keep, if◌then◌else◌, append-nil, append_assoc,
}
use golang_microservices_eco.Platform.Decimal.{Decimal}
use golang_microservices_eco.Ordering.Domain.Values.{Address, Payment, Error}
use golang_microservices_eco.Ordering.Domain.Status.{is_valid}
use golang_microservices_eco.Ordering.Domain.Order.{
  OrderItem, Order, Event, order_created, order_updated, new_order, update, add, remove,
}
use golang_microservices_eco.Ordering.Domain.Order.Compaction.{is_other, remove_lem}

-- The operations that change an order.
pub data Command (Amount : Type 0) : Type 0 where
  updates : Address → Address → Payment → ℤ → Command Amount
  adds : ℕ → ℕ → ℤ → Amount → Command Amount
  removes : ℕ → Command Amount

-- What an order announces by itself: an update with a known status.
abbrev pub announced : {Amount : Type 0} → List (Command Amount) → List Event
announced [] = []
announced (updates _ _ _ status ∷ cs) =
    let rest = announced cs in if is_valid status then order_updated ∷ rest else rest
announced (_ ∷ cs) = announced cs

module _ {Amount : Type 0} ⦃d : Decimal Amount⦄ where
  -- A line of the order with this id: positive quantity and price.
  pub record IsLine (order_id : ℕ) (item : OrderItem Amount) : Type 0 where
    pub owned : item.order_id ≡ order_id
    pub quantity_positive : is_nonpositive item.quantity ≡ false
    pub price_positive : d.less_than_or_equal item.price d.zero ≡ false

  pub record IsValid (o : Order Amount) : Type 0 where
    pub status_known : is_valid o.status ≡ true
    pub lines : All (IsLine o.id) o.items

  abbrev pub step : Order Amount → Command Amount → Order Amount × Option Error
  step o (updates shipping billing payment status) = update shipping billing payment status o
  step o (adds item_id product_id quantity price) = add item_id product_id quantity price o
  step o (removes product_id) = (remove product_id o, none)

  abbrev pub run : Order Amount → List (Command Amount) → Order Amount
  run o [] = o
  run o (c ∷ cs) = run (step o c).0 cs

  pub add-IsValid :
      (item_id product_id : ℕ) (quantity : ℤ) (price : Amount) (o : Order Amount)
      → IsValid o
      → IsValid (add item_id product_id quantity price o).0
  unfolding add
  add-IsValid item_id product_id quantity price o v = ground (
    arith,
    All-append (IsLine o.id) o.items (
        record {
          id = item_id;
          order_id = o.id;
          product_id = product_id;
          quantity = quantity;
          price = price;
        }
        ∷ []),
  )

  step-IsValid : (o : Order Amount) (c : Command Amount) → IsValid o → IsValid (step o c).0
  unfolding update
  step-IsValid o (updates shipping billing payment status) v = ground arith
  step-IsValid o (adds item_id product_id quantity price) v =
      add-IsValid item_id product_id quantity price o v
  step-IsValid o (removes product_id) v = rw remove_lem (record {
    status_known = v.status_known;
    lines = All-keep (IsLine o.id) (is_other product_id) o.items v.lines;
  })

  run-IsValid : (o : Order Amount) (cs : List (Command Amount)) → IsValid o → IsValid (run o cs)
  run-IsValid o [] v = v
  run-IsValid o (c ∷ cs) v = run-IsValid (step o c).0 cs (step-IsValid o c v)

  pub new_order-IsValid :
      (id customer_id : ℕ) (shipping billing : Address) (payment : Payment)
      → IsValid (new_order {Amount = Amount} id customer_id shipping billing payment)
  unfolding new_order is_valid
  new_order-IsValid id customer_id shipping billing payment = record {
    status_known = refl;
    lines = tt;
  }

  -- An order that was created and then changed by any commands, refused ones among them, has a
  -- known status and only lines of its own with a positive quantity and a positive price.
  pub run-new_order-IsValid :
      (id customer_id : ℕ) (shipping billing : Address) (payment : Payment)
      (cs : List (Command Amount))
      → IsValid (run (new_order id customer_id shipping billing payment) cs)
  run-new_order-IsValid id customer_id shipping billing payment cs =
      run-IsValid _ cs (new_order-IsValid id customer_id shipping billing payment)

  -- A command that reports an error has left the order as it was, and recorded no event.
  pub step_error_unchanged :
      (o : Order Amount) (c : Command Amount) {e : Error} → (step o c).1 ≡ some e → (step o c).0 ≡ o
  unfolding update add
  step_error_unchanged o (updates shipping billing payment status) h = ground arith
  step_error_unchanged o (adds item_id product_id quantity price) h = ground arith
  step_error_unchanged o (removes product_id) h = cc

  events-step :
      (o : Order Amount) (c : Command Amount) (cs : List (Command Amount))
      → (step o c).0.events ++ announced cs ≡ o.events ++ announced (c ∷ cs)
  unfolding update add
  events-step o (updates shipping billing payment status) cs =
      ground (arith, append_assoc o.events (order_updated ∷ []) (announced cs))
  events-step o (adds item_id product_id quantity price) cs = ground arith
  events-step o (removes product_id) cs = rw remove_lem

  events-run :
      (o : Order Amount) (cs : List (Command Amount)) → (run o cs).events ≡ o.events ++ announced cs
  events-run o [] = rw append-nil
  events-run o (c ∷ cs) = events-run (step o c).0 cs ∙ events-step o c cs

  -- An order announces that it was created, and then one update for each Update with a known
  -- status, whatever lines were added and removed in between.
  pub events-run-new_order :
      (id customer_id : ℕ) (shipping billing : Address) (payment : Payment)
      (cs : List (Command Amount))
      → (run (new_order id customer_id shipping billing payment) cs).events
        ≡ order_created ∷ announced cs
  unfolding new_order
  events-run-new_order id customer_id shipping billing payment cs = events-run _ cs
