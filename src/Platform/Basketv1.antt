-- ===== src/Platform/Basketv1.antt =====
-- internal/platform/messaging/basketv1: the contract of a checkout.
use golang_microservices_eco.Prelude.{ℕ, String, ℤ, pos, List}
use golang_microservices_eco.Platform.Messaging.{Contract, Header}

pub record Line (Amount : Type 0) : Type 0 where
  pub product_id : ℕ
  pub product_name : String
  pub quantity : ℤ
  pub unit_price : Amount

pub record Address : Type 0 where
  pub first_name : String
  pub last_name : String
  pub email_address : String
  pub address_line : String
  pub country : String
  pub state : String
  pub zip_code : String

pub record Payment : Type 0 where
  pub payment_token : String
  pub card_last4 : String
  pub payment_method : ℤ

pub record CheckoutSubmitted (Amount : Type 0) : Type 0 where
  pub header : Header
  pub user_name : String
  pub customer_id : ℕ
  pub total_price : Amount
  pub items : List (Line Amount)
  pub shipping_address : Address
  pub billing_address : Address
  pub payment : Payment

abbrev pub checkout_contract : Contract
checkout_contract = record { event_type = "basket.checkout-submitted"; version = pos 1 }
