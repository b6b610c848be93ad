-- ===== src/Ordering/Orders/Consumer.antt =====
-- internal/ordering/orders/checkout.go: CheckoutHandler.Handle, from the message of a checkout to
-- the stored order. Decoding a payload is an argument, with nothing where the decoder fails.
pub mod Stored
use golang_microservices_eco.Prelude.{ℕ, List, Option, none, some, Fallible, ok, err}
use golang_microservices_eco.Platform.Decimal.{Decimal}
use golang_microservices_eco.Platform.Messaging.{Envelope, EnvelopeError}
use golang_microservices_eco.Platform.Basketv1.{CheckoutSubmitted}
use golang_microservices_eco.Ordering.Domain.Values.{Customer, Product}
use golang_microservices_eco.Ordering.Domain.Order.{Order, Event}
use golang_microservices_eco.Ordering.Tables.{Tables}
use golang_microservices_eco.Ordering.Repository
use golang_microservices_eco.Ordering.Repository.{Server, place}
use golang_microservices_eco.Ordering.Orders.Checkout
use golang_microservices_eco.Ordering.Orders.Checkout.{order_from}

-- A rejected message can never be handled; a message whose order could not be stored comes back.
pub data Error : Type 0 where
  unreadable : Error
  rejected : Checkout.Error → Error
  not_stored : Repository.Error → Error

abbrev pub rejecting : {A : Type 0} → Checkout.Result A → Fallible Error A
rejecting (Checkout.ok a) = ok a
rejecting (Checkout.err e) = err (rejected e)

abbrev pub reported : Option Repository.Error → Option Error
reported none = none
reported (some e) = some (not_stored e)

module _ {Amount : Type 0} ⦃d : Decimal Amount⦄
    (decode : List ℕ → Option (CheckoutSubmitted Amount)) where
  -- The order that a message describes.
  unfoldable pub read_order :
      ℕ → (ℕ → ℕ) → Envelope → Fallible Error (Order Amount × Customer × List (Product Amount))
  read_order order_id draws envelope = elim (decode envelope.payload) [
    | none ↦ err unreadable
    | some event ↦ rejecting (order_from order_id draws event)
  ]

module _ {Amount : Type 0} (server : Server Amount)
    (map_event : Order Amount → ℕ → Event → Fallible EnvelopeError (Option Envelope)) where
  unfoldable pub place_read :
      ℕ
      → Fallible Error (Order Amount × Customer × List (Product Amount))
      → Tables Amount
      → Option Error × Tables Amount
  place_read now (err e) db = (some e, db)
  place_read now (ok (order, customer, products)) db =
      let (failure, _, after) = place server map_event now order customer products db in
      (reported failure, after)

  -- Handle; the ids that uuid.New draws are arguments.
  unfoldable pub handle :
      ⦃d : Decimal Amount⦄
      → (List ℕ → Option (CheckoutSubmitted Amount))
      → ℕ
      → ℕ
      → (ℕ → ℕ)
      → Envelope
      → Tables Amount
      → Option Error × Tables Amount
  unfolding read_order place_read
  handle decode now order_id draws envelope db =
      place_read now (read_order decode order_id draws envelope) db
