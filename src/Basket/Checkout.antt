-- ===== src/Basket/Checkout.antt =====
-- internal/basket/carts/checkout_basket.go with the transactions of internal/basket/postgres:
-- GetByUserName, Store, Delete, Checkout and recordCheckout. Whether a read fails and what becomes of
-- a write or of a transaction are arguments. uuid.NewSHA1
-- and the encoding of an event are arguments; the tables' JSON columns hold the lines themselves.
pub mod Atomic
pub use golang_microservices_eco.Prelude.{ok, err, ◌>>=◌, ok-injective}
use golang_microservices_eco.Prelude.{
  Fallible, Write, written, lost, unconfirmed, ℕ, zero, suc, ◌+◌, ◌-◌, ◌/◌, ◌%◌, String, ℤ, Bool,
  true, false, Option, none, some, List, [], ◌∷◌, ◌++◌, if◌then◌else◌, ◌==◌, str_eq, map, codes,
  any, is_empty, ltb,
}
use golang_microservices_eco.Platform.Decimal.{Decimal}
use golang_microservices_eco.Platform.Messaging.{Header, Envelope, EnvelopeError, new_envelope}
use golang_microservices_eco.Platform.Basketv1.{
  Line, Address, Payment, CheckoutSubmitted, checkout_contract,
}
use golang_microservices_eco.Basket.Carts.{ShoppingCartItem, ShoppingCart, total_price}

pub data Error : Type 0 where
  not_found : String → Error
  bad_request : String → Error
  database : Error
  unsent : EnvelopeError → Error

abbrev pub Result : Type 0 → Type 0
Result A = Fallible Error A

pub record CheckoutBasketCommand : Type 0 where
  pub user_name : String
  pub customer_id : ℕ
  pub address : Address
  pub payment_token : String
  pub card_last4 : String
  pub payment_method : ℤ

-- The rows of the two tables; a message keeps what the relay reads.
pub record BasketRow (Amount : Type 0) : Type 0 where
  pub items : List (ShoppingCartItem Amount)
  pub version : ℕ

pub record Database (Amount : Type 0) : Type 0 where
  pub baskets : String → Option (BasketRow Amount)
  pub messages : List Envelope

-- The INSERT of recordCheckout, with its ON CONFLICT (id) DO NOTHING.
unfoldable pub record_checkout : Envelope → List Envelope → List Envelope
record_checkout announcement messages =
    if any (λ m. m.id == announcement.id) messages then messages else messages ++ announcement ∷ []

module _ {Amount : Type 0} where
  abbrev pub set_basket : String → Option (BasketRow Amount) → Database Amount → Database Amount
  set_basket user_name row db = record db {
    baskets = λ other. if str_eq other user_name then row else db.baskets other;
  }

  unfoldable pub found : String → Option (BasketRow Amount) → Result (ShoppingCart Amount)
  found user_name none = err (not_found user_name)
  found user_name (some row) =
      ok (record { user_name = user_name; items = row.items; version = row.version })

  unfoldable pub get_by_user_name : Bool → String → Database Amount → Result (ShoppingCart Amount)
  unfolding found
  get_by_user_name fails user_name db =
      if fails then err database else found user_name (db.baskets user_name)

  -- The answer of a write, and the tables that it leaves.
  unfoldable pub answered :
      Write → Database Amount → Database Amount → Option Error × Database Amount
  answered written after db = (none, after)
  answered lost after db = (some database, db)
  answered unconfirmed after db = (some database, after)

  -- Store; `fresh` is the version that uuid.New draws.
  unfoldable pub store :
      Write → ℕ → ShoppingCart Amount → Database Amount → Option Error × Database Amount
  unfolding answered
  store kept fresh cart db =
      let row : BasketRow Amount = record {
        items = cart.items;
        version = if cart.version == 0 then fresh else cart.version;
      } in
      answered kept (set_basket cart.user_name (some row) db) db

  unfoldable pub delete : Write → String → Database Amount → Option Error × Database Amount
  unfolding answered
  delete kept user_name db = answered kept (set_basket user_name none db) db

  -- What Checkout does with the rows that its DELETE found.
  unfoldable pub clear :
      Write
      → String
      → Envelope
      → Option (BasketRow Amount)
      → Database Amount
      → Option Error × Database Amount
  unfolding answered record_checkout
  clear kept user_name announcement none db = (some (not_found user_name), db)
  clear kept user_name announcement (some row) db =
      answered kept
        (record (set_basket user_name none db) {
          messages = record_checkout announcement db.messages;
        })
        db

  -- Checkout; `delete_fails` is that the transaction fails at its DELETE or before, and `kept` is what
  -- becomes of the rest of it: it is lost where the INSERT fails or the commit does, and it may go
  -- through although the commit reports an error.
  unfoldable pub checkout :
      Bool → Write → String → Envelope → Database Amount → Option Error × Database Amount
  unfolding clear
  checkout delete_fails kept user_name announcement db =
      if delete_fails
      then (some database, db)
      else clear kept user_name announcement (db.baskets user_name) db

abbrev pub enveloped : Fallible EnvelopeError Envelope → Result Envelope
enveloped (err e) = err (unsent e)
enveloped (ok envelope) = ok envelope

-- The hexadecimal digits of a UUID, as in its text without the dashes.
abbrev hex_digit : ℕ → ℕ
hex_digit n = if ltb n 10 then b'0' + n else b'a' + (n - 10)

hex : ℕ → ℕ → List ℕ
hex zero n = []
hex (suc k) n = hex k (n / 16) ++ hex_digit (n % 16) ∷ []

-- What a checkout's message id is derived from.
checkout_name : String → ℕ → List ℕ
unfolding hex
checkout_name user_name version = codes user_name ++ b':' ∷ hex 32 version

unfoldable pub checkout_id : (List ℕ → ℕ) → String → ℕ → ℕ
unfolding checkout_name
checkout_id new_sha1 user_name version = new_sha1 (checkout_name user_name version)

module _ {Amount : Type 0} ⦃d : Decimal Amount⦄ where
  abbrev pub line_of : ShoppingCartItem Amount → Line Amount
  line_of item = record {
    product_id = item.product_id;
    product_name = item.product_name;
    quantity = item.quantity;
    unit_price = item.price;
  }

  unfoldable pub checkout_event :
      Header → CheckoutBasketCommand → ShoppingCart Amount → CheckoutSubmitted Amount
  checkout_event header c cart = record {
    header = header;
    user_name = c.user_name;
    customer_id = c.customer_id;
    total_price = total_price cart;
    items = map line_of cart.items;
    shipping_address = c.address;
    billing_address = c.address;
    payment = record {
      payment_token = c.payment_token;
      card_last4 = c.card_last4;
      payment_method = c.payment_method;
    };
  }

  module _ (new_sha1 : List ℕ → ℕ) (encode : CheckoutSubmitted Amount → Option (List ℕ)) where
    -- The announcement of a basket that was read.
    unfoldable pub announce : Header → CheckoutBasketCommand → ShoppingCart Amount → Result Envelope
    unfolding checkout_id checkout_event new_envelope
    announce header c cart = elim cart.items [
      | [] ↦ err (bad_request c.user_name)
      | item ∷ items ↦
          if cart.version == 0
          then err (not_found c.user_name)
          else let event =
              checkout_event (record header { id = checkout_id new_sha1 c.user_name cart.version })
                c cart in
            enveloped (new_envelope checkout_contract event.header (encode event) c.user_name)
    ]

    unfoldable pub prepare :
        Bool → Header → CheckoutBasketCommand → Database Amount → Result Envelope
    prepare get_fails header c db = do
      cart ← get_by_user_name get_fails c.user_name db
      announce header c cart

    finish :
        Bool
        → Write
        → CheckoutBasketCommand
        → Result Envelope
        → Database Amount
        → Option Error × Database Amount
    finish delete_fails kept c (err e) db = (some e, db)
    finish delete_fails kept c (ok announcement) db =
        checkout delete_fails kept c.user_name announcement db

    -- Handle, where no other request comes between its read and its transaction.
    unfoldable pub handle :
        Bool
        → Bool
        → Write
        → Header
        → CheckoutBasketCommand
        → Database Amount
        → Option Error × Database Amount
    unfolding prepare finish
    handle get_fails delete_fails kept header c db =
        finish delete_fails kept c (prepare get_fails header c db) db
