-- ===== src/Platform/Orderingv2.antt =====
-- internal/platform/messaging/orderingv2: the contracts of the Ordering service.
use golang_microservices_eco.Prelude.{ℕ, String, ℤ, pos, List}
use golang_microservices_eco.Platform.Messaging.{Contract, Header}

pub record Line (Amount : Type 0) : Type 0 where
  pub product_id : ℕ
  pub quantity : ℤ
  pub price : Amount

pub record OrderCreated (Amount : Type 0) : Type 0 where
  pub header : Header
  pub order_id : ℕ
  pub customer_id : ℕ
  pub status : String
  pub total_price : Amount
  pub items : List (Line Amount)

pub record OrderUpdated (Amount : Type 0) : Type 0 where
  pub header : Header
  pub order_id : ℕ
  pub customer_id : ℕ
  pub status : String
  pub total_price : Amount

abbrev pub created_contract : Contract
created_contract = record { event_type = "ordering.order-created"; version = pos 2 }

abbrev pub updated_contract : Contract
updated_contract = record { event_type = "ordering.order-updated"; version = pos 2 }
