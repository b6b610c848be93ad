-- ===== src/Ordering/Integration.antt =====
-- internal/ordering/integration/integration.go. uuid's text, the encoding of an event and the
-- headers that NewHeader draws, one for each event of a save, are arguments.
use golang_microservices_eco.Prelude.{
  ℕ, String, Bool, List, map, Option, none, some, Fallible, ok, if◌then◌else◌, ◌>>=◌,
}
use golang_microservices_eco.Platform.Decimal.{Decimal}
use golang_microservices_eco.Platform.Messaging.{Header, Envelope, EnvelopeError, new_envelope}
use golang_microservices_eco.Platform.Orderingv2.{
  Line, OrderCreated, OrderUpdated, created_contract, updated_contract,
}
use golang_microservices_eco.Ordering.Domain.Status.{status_string}
use golang_microservices_eco.Ordering.Domain.Order.{
  OrderItem, Order, Event, order_created, order_updated, total_price,
}

-- Marshal of the two contracts.
pub record Encoder (Amount : Type 0) : Type 0 where
  pub created : OrderCreated Amount → Option (List ℕ)
  pub updated : OrderUpdated Amount → Option (List ℕ)
  pub uuid_text : ℕ → String

abbrev line_of : {Amount : Type 0} → OrderItem Amount → Line Amount
line_of item = record { product_id = item.product_id; quantity = item.quantity; price = item.price }

abbrev mapped : Envelope → Fallible EnvelopeError (Option Envelope)
mapped envelope = ok (some envelope)

module _ {Amount : Type 0} ⦃d : Decimal Amount⦄ where
  unfoldable pub created_event : Header → Order Amount → OrderCreated Amount
  created_event header order = record {
    header = header;
    order_id = order.id;
    customer_id = order.customer_id;
    status = status_string order.status;
    total_price = total_price order;
    items = map line_of order.items;
  }

  unfoldable pub updated_event : Header → Order Amount → OrderUpdated Amount
  updated_event header order = record {
    header = header;
    order_id = order.id;
    customer_id = order.customer_id;
    status = status_string order.status;
    total_price = total_price order;
  }

  -- Mapper.Map: no envelope for an event that is not announced.
  unfoldable pub map_event :
      Bool
      → Encoder Amount
      → (ℕ → Header)
      → Order Amount
      → ℕ
      → Event
      → Fallible EnvelopeError (Option Envelope)
  unfolding created_event updated_event
  map_event fulfill_orders encoder headers order i order_created =
      if fulfill_orders
      then new_envelope created_contract (headers i)
          (encoder.created (created_event (headers i) order)) (encoder.uuid_text order.id)
        >>= mapped
      else ok none
  map_event fulfill_orders encoder headers order i order_updated =
      new_envelope updated_contract (headers i) (encoder.updated (updated_event (headers i) order))
        (encoder.uuid_text order.id)
      >>= mapped
