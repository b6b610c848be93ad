-- ===== src/Payment/Cards.antt =====
-- internal/payment/cards: card.go and the handler of tokenize_card.go, with the insert of
-- internal/payment/postgres/repository.go. A text that is looked into is its code points; an
-- expiry is compared only with the start of a month, so the clock's reading is the number of its
-- month in UTC, from the year 0. The 128 random bits of a token are an argument.
pub mod Luhn
pub mod Tokenize
pub use golang_microservices_eco.Prelude.{ok, err}
use golang_microservices_eco.Prelude.{
  Fallible, ℕ, ◌+◌, ◌-◌, ◌*◌, ◌%◌, String, List, [], ◌∷◌, ◌++◌, Option, some, none, Bool, true,
  false, leb, ltb, ◌==◌, ◌&&◌, ◌||◌, if◌then◌else◌, negate, codes, is_empty, are_digits, trim_space,
  length, drop, keep,
}
use mathlib.Core.List.{reverse}

-- StoredCard; the security code is no part of it.
pub record StoredCard : Type 0 where
  pub token : ℕ
  pub card_number : List ℕ
  pub expiration : List ℕ
  pub card_name : String

-- The digits that Last4 returns.
unfoldable pub last4 : StoredCard → List ℕ
last4 c = drop (length c.card_number - 4) c.card_number

abbrev is_separator : ℕ → Bool
is_separator c = c == b' ' || c == b'-'

unfoldable pub normalize_card_number : List ℕ → List ℕ
normalize_card_number number = keep (λ c. negate (is_separator c)) number

abbrev min_card_digits : ℕ
min_card_digits = 12

abbrev max_card_digits : ℕ
max_card_digits = 19

-- allDigits.
unfoldable pub all_digits : List ℕ → Bool
unfolding are_digits
all_digits [] = false
all_digits (c ∷ value) = are_digits (c ∷ value)

-- What one digit adds to the sum.
unfoldable pub weight : Bool → ℕ → ℕ
weight double digit =
    if double then (if ltb 9 (digit * 2) then digit * 2 - 9 else digit * 2) else digit

-- The loop of validCardNumber over the digits from the last to the first.
unfoldable pub luhn_from : Bool → ℕ → List ℕ → ℕ
unfolding weight
luhn_from double sum [] = sum
luhn_from double sum (c ∷ number) =
    luhn_from (negate double) (sum + weight double (c - b'0')) number

-- The length tests count code points: a text of another byte length is no text of digits.
unfoldable pub valid_card_number : List ℕ → Bool
unfolding all_digits luhn_from
valid_card_number number =
    if ltb (length number) min_card_digits
      || ltb max_card_digits (length number)
      || negate (all_digits number)
    then false
    else luhn_from false 0 (reverse number) % 10 == 0

unfoldable pub valid_cvv : List ℕ → Bool
unfolding all_digits
valid_cvv cvv = (length cvv == 3 || length cvv == 4) && all_digits cvv

-- strings.Cut at a slash.
unfoldable pub cut : List ℕ → Option (List ℕ × List ℕ)
cut [] = none
cut (c ∷ s) =
    let rest = cut s in
    if c == b'/'
    then some ([], s)
    else elim rest [ none ↦ none | some parts ↦ some (c ∷ parts.0, parts.1) ]

-- strconv.Atoi of digits, from a value so far.
unfoldable pub atoi_from : ℕ → List ℕ → ℕ
atoi_from n [] = n
atoi_from n (c ∷ s) = atoi_from (10 * n + (c - b'0')) s

-- What expiryEnd makes of the two parts: the number of the month after the one on the card.
unfoldable pub month_after : List ℕ → List ℕ → Option ℕ
unfolding all_digits atoi_from
month_after month year =
    if negate (length month == 2)
      || negate (length year == 2)
      || negate (all_digits month)
      || negate (all_digits year)
    then none
    else if ltb (atoi_from 0 month) 1 || ltb 12 (atoi_from 0 month)
    then none
    else some (12 * (2000 + atoi_from 0 year) + atoi_from 0 month)

unfoldable pub expiry_end : List ℕ → Option ℕ
unfolding cut month_after
expiry_end expiration = elim (cut expiration) [
  | none ↦ none
  | some parts ↦ month_after parts.0 parts.1
]

pub record TokenizeCardCommand : Type 0 where
  pub card_name : String
  pub card_number : String
  pub expiration : String
  pub cvv : String

-- The entries of the map of failed fields.
pub data ExpirationError : Type 0 where
  expiration_malformed card_expired : ExpirationError

pub record Fields : Type 0 where
  pub card_number : Bool
  pub expiration : Option ExpirationError
  pub cvv : Bool

pub data Error : Type 0 where
  validation : Fields → Error
  database : Error

abbrev pub Result : Type 0 → Type 0
Result A = Fallible Error A

unfoldable pub expiration_error : ℕ → List ℕ → Option ExpirationError
unfolding expiry_end
expiration_error now expiration = elim (expiry_end expiration) [
  | none ↦ some expiration_malformed
  | some end ↦ if negate (ltb now end) then some card_expired else none
]

-- The fields that check complains about.
unfoldable pub failed_fields : ℕ → TokenizeCardCommand → List ℕ → Fields
failed_fields now c number = record {
  card_number = negate (valid_card_number number);
  expiration = expiration_error now (codes c.expiration);
  cvv = negate (valid_cvv (codes c.cvv));
}

abbrev has_entries : Fields → Bool
has_entries fields =
    fields.card_number || elim fields.expiration [ none ↦ false | some e ↦ true ] || fields.cvv

pub record TokenizeCardResult : Type 0 where
  pub payment_token : ℕ
  pub card_last4 : List ℕ

-- Handle: the result, and the table after it; `fails` is that the insert fails.
unfoldable pub handle :
    ℕ
    → ℕ
    → Bool
    → TokenizeCardCommand
    → List StoredCard
    → Result TokenizeCardResult × List StoredCard
handle now token fails c table =
    let number = normalize_card_number (codes c.card_number) in
    let fields = failed_fields now c number in
    let card : StoredCard = record {
      token = token;
      card_number = number;
      expiration = codes c.expiration;
      card_name = trim_space c.card_name;
    } in
    if has_entries fields
    then (err (validation fields), table)
    else if fails
    then (err database, table)
    else (ok (record { payment_token = token; card_last4 = last4 card }), table ++ card ∷ [])
