-- ===== src/Payment/Cards/Tokenize.antt =====
-- internal/payment/cards: expiryEnd of card.go and Handle of tokenize_card.go.
use golang_microservices_eco.Prelude.{
  ℕ, zero, suc, ◌+◌, ◌-◌, ◌*◌, ◌/◌, ◌%◌, ◌≤◌, ◌<◌, ◌≡◌, refl, ap, ◌∙◌, List, [], ◌∷◌, ◌++◌, Option,
  none, some, Bool, true, arith, length, drop, take, take-append-drop, codes, trim_space, ltb,
  if◌then◌else◌, negate, are_digits,
}
use golang_microservices_eco.Payment.Cards.{
  StoredCard, TokenizeCardCommand, TokenizeCardResult, ok, err, Error, normalize_card_number,
  valid_card_number, valid_cvv, last4, expiry_end, expiration_error, expiration_malformed,
  card_expired, cut, month_after, atoi_from, all_digits, failed_fields, handle,
}

abbrev pub two_digits : ℕ → List ℕ
two_digits n = (b'0' + n / 10) ∷ (b'0' + n % 10) ∷ []

cut-two_digits :
    (m : ℕ) (s : List ℕ) → m ≤ 99 → cut (two_digits m ++ b'/' ∷ s) ≡ some (two_digits m, s)
unfolding cut
cut-two_digits m s h = ground arith

all_digits-two_digits : (m : ℕ) → m ≤ 99 → all_digits (two_digits m) ≡ true
unfolding all_digits are_digits
all_digits-two_digits m h = ground arith

atoi-two_digits : (m : ℕ) → atoi_from 0 (two_digits m) ≡ m
unfolding atoi_from
atoi-two_digits m = omega arith

-- An expiry printed as MM/YY, of a month from 1 to 12 and a year below 100, ends with that month
-- of that year of the 2000s: the moment after it is the start of the next month.
pub expiry_end-two_digits :
    (m y : ℕ)
    → 1 ≤ m
    → m ≤ 12
    → y ≤ 99
    → expiry_end (two_digits m ++ b'/' ∷ two_digits y) ≡ some (12 * (2000 + y) + m)
unfolding expiry_end month_after
expiry_end-two_digits m y hm hm' hy =
    rw (cut-two_digits m (two_digits y) (omega arith), expiry_end)
      (rw
        (
          all_digits-two_digits m (omega arith),
          all_digits-two_digits y hy,
          atoi-two_digits,
          atoi-two_digits,
        )
        (ground arith))

length-drop : (n : ℕ) (xs : List ℕ) → length (drop n xs) ≡ length xs - n
length-drop zero xs = omega arith
length-drop (suc n) [] = omega arith
length-drop (suc n) (x ∷ xs) = omega (arith, length-drop n xs)

-- What a tokenized card leaves behind.
pub record IsTokenized (now token : ℕ) (c : TokenizeCardCommand) (table table' : List StoredCard)
    (result : TokenizeCardResult) : Type 0 where
  pub issued : result.payment_token ≡ token
  pub hidden : List ℕ
  pub number : hidden ++ result.card_last4 ≡ normalize_card_number (codes c.card_number)
  pub four : length result.card_last4 ≡ 4
  pub is_valid : valid_card_number (normalize_card_number (codes c.card_number)) ≡ true
  pub end : ℕ
  pub expiry : expiry_end (codes c.expiration) ≡ some end
  pub not_expired : now < end
  pub cvv_shaped : valid_cvv (codes c.cvv) ≡ true
  pub stored :
      table'
      ≡ table
        ++ record {
          token = token;
          card_number = normalize_card_number (codes c.card_number);
          expiration = codes c.expiration;
          card_name = trim_space c.card_name;
        }
          ∷ []

length-valid : (number : List ℕ) → valid_card_number number ≡ true → 12 ≤ length number
unfolding valid_card_number
length-valid number h = ground arith

expiration_error-none :
    (now : ℕ) (expiration : List ℕ)
    → expiration_error now expiration ≡ none
    → (end : ℕ) × (expiry_end expiration ≡ some end) × (now < end)
unfolding expiration_error
expiration_error-none now expiration h = go (expiry_end expiration) h
  where
    go :
        (o : Option ℕ)
        → elim o [
          | none ↦ some expiration_malformed
          | some end ↦ if negate (ltb now end) then some card_expired else none
        ]
          ≡ none
        → (end : ℕ) × (o ≡ some end) × (now < end)
    go none k = cc
    go (some end) k = (end, refl, ground arith)

handle-ok :
    (now token : ℕ) (fails : Bool) (c : TokenizeCardCommand) (table : List StoredCard)
    (result : TokenizeCardResult)
    → (handle now token fails c table).0 ≡ ok result
    → let number = normalize_card_number (codes c.card_number) in
      (result ≡ record { payment_token = token; card_last4 = drop (length number - 4) number })
      × ((handle now token fails c table).1
          ≡ table
            ++ record {
              token = token;
              card_number = number;
              expiration = codes c.expiration;
              card_name = trim_space c.card_name;
            }
              ∷ [])
      × (valid_card_number number ≡ true)
      × (expiration_error now (codes c.expiration) ≡ none)
      × (valid_cvv (codes c.cvv) ≡ true)
unfolding handle failed_fields last4
handle-ok now token fails c table result h = ground arith

-- A command that Handle accepts has a valid card number, an expiry that has not passed and a
-- security code of the right shape; one card is stored, under the token that is returned, and the
-- four digits that are returned are the last of its number.
pub handle-IsTokenized :
    (now token : ℕ) (fails : Bool) (c : TokenizeCardCommand) (table : List StoredCard)
    (result : TokenizeCardResult)
    → (handle now token fails c table).0 ≡ ok result
    → IsTokenized now token c table (handle now token fails c table).1 result
unfolding handle
handle-IsTokenized now token fails c table result h =
    let number = normalize_card_number (codes c.card_number) in
    let (e_result, e_table, valid, unexpired, shaped) =
      handle-ok now token fails c table result h in
    let (end, expiry, not_expired) = expiration_error-none now (codes c.expiration) unexpired in
    record {
      issued = ap (λ r. r.payment_token) e_result;
      hidden = take (length number - 4) number;
      number =
          ap (λ r. take (length number - 4) number ++ r.card_last4) e_result
          ∙ take-append-drop (length number - 4) number;
      four =
          ap (λ r. length r.card_last4) e_result
          ∙ (length-drop (length number - 4) number ∙ omega (arith, length-valid number valid));
      is_valid = valid;
      end = end;
      expiry = expiry;
      not_expired = not_expired;
      cvv_shaped = shaped;
      stored = e_table;
    }

-- A command that Handle does not accept stores nothing.
pub handle_error-unchanged :
    (now token : ℕ) (fails : Bool) (c : TokenizeCardCommand) (table : List StoredCard) (e : Error)
    → (handle now token fails c table).0 ≡ err e
    → (handle now token fails c table).1 ≡ table
unfolding handle
handle_error-unchanged now token fails c table e h = ground arith
