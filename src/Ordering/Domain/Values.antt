-- ===== src/Ordering/Domain/Values.antt =====
-- internal/ordering/domain: domain.go, ids.go, valueobjects.go, payment.go and customer.go.
-- A UUID is its 128-bit value and uuid.Nil is 0. The text of a rule violation is its constructor.
-- The Audit fields, which only persistence fills in, are left out.
pub use golang_microservices_eco.Prelude.{ok, err, ◌>>=◌}
use golang_microservices_eco.Prelude.{
  Fallible, ℕ, ◌==◌, String, ℤ, Bool, false, if◌then◌else◌, is_blank, is_empty, are_digits, codes,
  length, negate, Bool-cases, inl, inr, ok-injective, sym, ◌≡◌,
}
use golang_microservices_eco.Platform.Decimal.{Decimal}

-- A domain.Error, by its message.
pub data Error : Type 0 where
  order_id_empty customer_id_empty product_id_empty order_item_id_empty : Error
  email_address_required address_line_required : Error
  payment_token_required card_last4_invalid : Error
  name_required email_required : Error
  quantity_not_positive price_not_positive : Error
  unknown_status : ℤ → Error
  unknown_status_name : String → Error

abbrev pub Result {ℓ} : Type ℓ → Type ℓ
Result A = Fallible Error A

unfoldable pub new_order_id : ℕ → Result ℕ
new_order_id value = if value == 0 then err order_id_empty else ok value

unfoldable pub new_customer_id : ℕ → Result ℕ
new_customer_id value = if value == 0 then err customer_id_empty else ok value

unfoldable pub new_product_id : ℕ → Result ℕ
new_product_id value = if value == 0 then err product_id_empty else ok value

unfoldable pub new_order_item_id : ℕ → Result ℕ
new_order_item_id value = if value == 0 then err order_item_id_empty else ok value

pub record Address : Type 0 where
  pub first_name : String
  pub last_name : String
  pub email_address : String
  pub address_line : String
  pub country : String
  pub state : String
  pub zip_code : String

unfoldable pub new_address :
    String → String → String → String → String → String → String → Result Address
new_address first_name last_name email_address address_line country state zip_code =
    if is_blank email_address
    then err email_address_required
    else if is_blank address_line
    then err address_line_required
    else ok (record {
      first_name = first_name;
      last_name = last_name;
      email_address = email_address;
      address_line = address_line;
      country = country;
      state = state;
      zip_code = zip_code;
    })

pub record Payment : Type 0 where
  pub payment_token : String
  pub card_last4 : String
  pub payment_method : ℤ

-- The zero value of the struct.
abbrev pub no_payment : Payment
no_payment = record { payment_token = ""; card_last4 = ""; payment_method = ℤ.pos 0 }

abbrev card_last4_length : ℕ
card_last4_length = 4

-- The length test counts code points: a text of another byte length is no text of digits.
is_digits : String → ℕ → Bool
unfolding are_digits
is_digits value len =
    if negate (length (codes value) == len) then false else are_digits (codes value)

unfoldable pub new_payment : String → String → ℤ → Result Payment
unfolding is_digits
new_payment payment_token card_last4 payment_method =
    if is_blank payment_token
    then err payment_token_required
    else if negate (is_digits card_last4 card_last4_length)
    then err card_last4_invalid
    else ok (record {
      payment_token = payment_token;
      card_last4 = card_last4;
      payment_method = payment_method;
    })

-- The fields of a payment that the constructor has made.
pub new_payment-ok :
    (token last4 : String) (method : ℤ) (p : Payment)
    → new_payment token last4 method ≡ ok p
    → p ≡ record { payment_token = token; card_last4 = last4; payment_method = method }
unfolding new_payment
new_payment-ok token last4 method p h = elim (Bool-cases (is_blank token)) [
  | inl blank ↦ cc (rw blank at h)
  | inr named ↦ elim (Bool-cases (is_digits last4 card_last4_length)) [
    | inr wrong ↦ cc (rw (named, wrong) at h)
    | inl digits ↦ sym (ok-injective (rw (named, digits) at h))
  ]
]

-- Payment.IsZero.
unfoldable pub is_zero : Payment → Bool
is_zero p = is_empty p.payment_token

pub record Customer : Type 0 where
  pub id : ℕ
  pub name : String
  pub email : String

unfoldable pub new_customer : ℕ → String → String → Result Customer
new_customer id name email =
    if is_blank name
    then err name_required
    else if is_blank email
    then err email_required
    else ok (record { id = id; name = name; email = email })

pub record Product (Amount : Type 0) : Type 0 where
  pub id : ℕ
  pub name : String
  pub price : Amount

module _ {Amount : Type 0} ⦃d : Decimal Amount⦄ where
  unfoldable pub new_product : ℕ → String → Amount → Result (Product Amount)
  new_product id name price =
      if is_blank name
      then err name_required
      else if d.less_than_or_equal price d.zero
      then err price_not_positive
      else ok (record { id = id; name = name; price = price })
