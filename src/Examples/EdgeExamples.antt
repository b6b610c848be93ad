-- ===== src/Examples/EdgeExamples.antt =====
-- Cards of internal/payment and requests of internal/gateway.
use golang_microservices_eco.Prelude.{
  none, ◌+◌, ◌*◌, ◌≡◌, ◌↔◌, refl, List, [], ◌∷◌, ◌++◌, true, false, some, arith, pos, codes, min,
}
use golang_microservices_eco.Payment.Cards.{
  TokenizeCardCommand, TokenizeCardResult, valid_card_number, expiry_end, handle,
  normalize_card_number, failed_fields, last4, expiration_error, valid_cvv,
}
use golang_microservices_eco.Payment.Cards.Luhn.{
  valid_card_number-one_wrong, IsBlind, valid_card_number-swapped,
}
use golang_microservices_eco.Payment.Cards.Tokenize.{
  two_digits, expiry_end-two_digits, IsTokenized, handle-IsTokenized,
}
use golang_microservices_eco.Gateway.Ratelimit.{
  middleware, respond, retry_after, FixedWindow, new_fixed_window, alive, sweep, put, admit, allow,
}
use golang_microservices_eco.Gateway.Ratelimit.Window.{Request, asked, granted, granted-window}
use golang_microservices_eco.Gateway.Ratelimit.Told.{middleware_after_told}

test_number-valid : valid_card_number (codes "4242" ++ b'4' ∷ b'2' ∷ codes "4242424242") ≡ true
unfolding valid_card_number
test_number-valid = refl

valid_card_number-one_wrong_example :
    valid_card_number (codes "4242" ++ b'7' ∷ b'2' ∷ codes "4242424242") ≡ false
valid_card_number-one_wrong_example =
    valid_card_number-one_wrong (codes "4242") (b'2' ∷ codes "4242424242") b'4' b'7' (λ h. cc)
      test_number-valid

valid_card_number-swapped_example :
    (valid_card_number (codes "4242" ++ b'2' ∷ b'4' ∷ codes "4242424242") ≡ true)
    ↔ IsBlind b'4' b'2'
valid_card_number-swapped_example =
    valid_card_number-swapped (codes "4242") (codes "4242424242") b'4' b'2' test_number-valid

expiry_end-two_digits_example :
    expiry_end (two_digits 12 ++ b'/' ∷ two_digits 28) ≡ some (12 * (2000 + 28) + 12)
expiry_end-two_digits_example =
    expiry_end-two_digits 12 28 (omega arith) (omega arith) (omega arith)

abbrev command : TokenizeCardCommand
command = record {
  card_name = " Ada Lovelace ";
  card_number = "4242 4242-4242 4242";
  expiration = "12/28";
  cvv = "123";
}

abbrev tokenized : TokenizeCardResult
tokenized = record { payment_token = 7; card_last4 = codes "4242" }

handle-IsTokenized_example :
    IsTokenized 24320 7 command [] (handle 24320 7 false command []).1 tokenized
unfolding handle failed_fields valid_card_number normalize_card_number expiration_error expiry_end
    valid_cvv last4
handle-IsTokenized_example = handle-IsTokenized 24320 7 false command [] tokenized refl

abbrev limiter : FixedWindow
limiter = new_fixed_window (pos 2) (pos 10) 100

-- Ada asks four times and Bob once.
abbrev requests : List Request
requests = ("bob", 103) ∷ ("ada", 104) ∷ ("ada", 105) ∷ ("ada", 110) ∷ []

granted-window_example :
    granted "ada" limiter (("ada", 100) ∷ requests)
    ≡ min limiter.limit (asked "ada" (("ada", 100) ∷ requests))
unfolding new_fixed_window alive
granted-window_example =
    granted-window "ada" 100 limiter requests refl (omega arith)
      (omega arith, (omega arith, (omega arith, (omega arith, tt))))

abbrev used_up : FixedWindow
used_up = (allow "ada" 101 (allow "ada" 100 limiter).1).1

-- A wait that the header rounds down.
abbrev slow : FixedWindow
slow = (allow "ada" 0 (new_fixed_window (pos 1) (pos 9400000000) 0)).1

middleware_after_told_example : (middleware "ada" 9500000000 (middleware "ada" 0 slow).1).0 ≡ none
unfolding new_fixed_window middleware respond retry_after allow admit sweep alive put
middleware_after_told_example = middleware_after_told "ada" 0 9500000000 9 slow refl (omega arith)
