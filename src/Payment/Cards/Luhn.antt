-- ===== src/Payment/Cards/Luhn.antt =====
-- internal/payment/cards/card.go: the check digit of validCardNumber under a change of the number.
use golang_microservices_eco.Prelude.{
  ℕ, suc, ◌+◌, ◌-◌, ◌%◌, ◌≡◌, ◌≢◌, ◌↔◌, ◌⊎◌, refl, sym, ap, ◌∙◌, List, [], ◌∷◌, ◌++◌, Bool, true,
  false, arith, inl, inr, negate, ◌&&◌, leb, length, are_digits, Bool-cases, append_assoc,
}
use mathlib.Core.List.{reverse, reverse-append, reverse-cons}
use golang_microservices_eco.Payment.Cards.{all_digits, weight, luhn_from, valid_card_number}

luhn_from-shift :
    (double : Bool) (sum : ℕ) (ds : List ℕ) → luhn_from double sum ds ≡ sum + luhn_from double 0 ds
unfolding luhn_from
luhn_from-shift double sum [] = omega arith
luhn_from-shift double sum (c ∷ ds) =
    luhn_from-shift (negate double) (sum + weight double (c - b'0')) ds
    ∙ (omega arith
        ∙ ap (λ n. sum + n)
            (sym (luhn_from-shift (negate double) (0 + weight double (c - b'0')) ds)))

-- The weight that the loop has reached behind these digits.
abbrev doubled_after : Bool → List ℕ → Bool
doubled_after double [] = double
doubled_after double (c ∷ ds) = doubled_after (negate double) ds

luhn_from-append :
    (double : Bool) (sum : ℕ) (ds es : List ℕ)
    → luhn_from double sum (ds ++ es)
      ≡ luhn_from (doubled_after double ds) (luhn_from double sum ds) es
unfolding luhn_from
luhn_from-append double sum [] es = refl
luhn_from-append double sum (c ∷ ds) es =
    luhn_from-append (negate double) (sum + weight double (c - b'0')) ds es

are_digits-append : (ds es : List ℕ) → are_digits (ds ++ es) ≡ (are_digits ds && are_digits es)
unfolding are_digits
are_digits-append [] es = refl
are_digits-append (c ∷ ds) es = ground (arith, are_digits-append ds es)

reverse-middle : (xs ys : List ℕ) (c : ℕ) → reverse (xs ++ c ∷ ys) ≡ reverse ys ++ c ∷ reverse xs
reverse-middle xs ys c =
    reverse-append xs (c ∷ ys)
    ∙ (ap (λ l. l ++ reverse xs) (reverse-cons c ys)
        ∙ append_assoc (reverse ys) (c ∷ []) (reverse xs))

are_digits-valid : (number : List ℕ) → valid_card_number number ≡ true → are_digits number ≡ true
unfolding valid_card_number all_digits
are_digits-valid [] h = ground arith
are_digits-valid (c ∷ number) h = ground arith

sum-valid :
    (number : List ℕ)
    → valid_card_number number ≡ true
    → luhn_from false 0 (reverse number) % 10 ≡ 0
unfolding valid_card_number
sum-valid number h = ground arith

-- The sum, with what one digit adds written out.
sum_middle :
    (double : Bool) (sum : ℕ) (ds es : List ℕ) (c : ℕ)
    → luhn_from double sum (ds ++ c ∷ es)
      ≡ (luhn_from double sum ds + luhn_from (negate (doubled_after double ds)) 0 es)
        + weight (doubled_after double ds) (c - b'0')
unfolding luhn_from
sum_middle double sum ds es c =
    luhn_from-append double sum ds (c ∷ es)
    ∙ (luhn_from-shift (negate (doubled_after double ds))
          (luhn_from double sum ds + weight (doubled_after double ds) (c - b'0')) es
        ∙ omega arith)

weight_injective :
    (double : Bool) (c d sum : ℕ)
    → (leb b'0' c && leb c b'9') ≡ true
    → (leb b'0' d && leb d b'9') ≡ true
    → (sum + weight double (c - b'0')) % 10 ≡ 0
    → (sum + weight double (d - b'0')) % 10 ≡ 0
    → c ≡ d
unfolding weight
weight_injective true c d sum hc hd h k = ground arith
weight_injective false c d sum hc hd h k = ground arith

are_digits-middle :
    (xs ys : List ℕ) (c : ℕ) → are_digits (xs ++ c ∷ ys) ≡ true → (leb b'0' c && leb c b'9') ≡ true
unfolding are_digits
are_digits-middle [] ys c h = ground arith
are_digits-middle (x ∷ xs) ys c h = ground (arith, are_digits-middle xs ys c)

-- A valid card number with one character changed into another is not valid.
pub valid_card_number-one_wrong :
    (xs ys : List ℕ) (c d : ℕ)
    → c ≢ d
    → valid_card_number (xs ++ c ∷ ys) ≡ true
    → valid_card_number (xs ++ d ∷ ys) ≡ false
valid_card_number-one_wrong xs ys c d differ h =
    elim (Bool-cases (valid_card_number (xs ++ d ∷ ys))) [
      | inl also ↦
          elim (differ (
            weight_injective (doubled_after false (reverse ys)) c d
              (luhn_from false 0 (reverse ys)
                + luhn_from (negate (doubled_after false (reverse ys))) 0 (reverse xs))
              (are_digits-middle xs ys c (are_digits-valid _ h))
              (are_digits-middle xs ys d (are_digits-valid _ also))
              (ap (λ n. n % 10) (sym (sum_middle false 0 (reverse ys) (reverse xs) c))
                ∙ (rw (← reverse-middle) (sum-valid _ h)))
              (ap (λ n. n % 10) (sym (sum_middle false 0 (reverse ys) (reverse xs) d))
                ∙ (rw (← reverse-middle) (sum-valid _ also))))) [ ]
      | inr not ↦ not
    ]

-- The sum without two neighbours.
abbrev sum_around : List ℕ → List ℕ → ℕ
sum_around xs ys =
    luhn_from false 0 (reverse ys)
    + luhn_from (negate (negate (doubled_after false (reverse ys)))) 0 (reverse xs)

sum_pair :
    (xs ys : List ℕ) (a b : ℕ)
    → luhn_from false 0 (reverse (xs ++ a ∷ b ∷ ys))
      ≡ sum_around xs ys
        + (weight (doubled_after false (reverse ys)) (b - b'0')
            + weight (negate (doubled_after false (reverse ys))) (a - b'0'))
unfolding luhn_from
sum_pair xs ys a b =
    ap (luhn_from false 0) (
      reverse-middle xs (b ∷ ys) a
      ∙ (ap (λ l. l ++ a ∷ reverse xs) (reverse-cons b ys)
          ∙ append_assoc (reverse ys) (b ∷ []) (a ∷ reverse xs)))
    ∙ (sum_middle false 0 (reverse ys) (a ∷ reverse xs) b
        ∙ (ap
              (λ n.
                (luhn_from false 0 (reverse ys) + n)
                + weight (doubled_after false (reverse ys)) (b - b'0'))
              (luhn_from-shift (negate (negate (doubled_after false (reverse ys))))
                (0 + weight (negate (doubled_after false (reverse ys))) (a - b'0')) (reverse xs))
            ∙ omega arith))

-- The neighbours that the check does not tell apart.
abbrev pub IsBlind : ℕ → ℕ → Type 0
IsBlind a b = (a ≡ b) ⊎ ((a ≡ b'0') × (b ≡ b'9')) ⊎ ((a ≡ b'9') × (b ≡ b'0'))

weight_pair :
    (double : Bool) (sum a b : ℕ)
    → (leb b'0' a && leb a b'9') ≡ true
    → (leb b'0' b && leb b b'9') ≡ true
    → (sum + (weight double (b - b'0') + weight (negate double) (a - b'0'))) % 10 ≡ 0
    → ((sum + (weight double (a - b'0') + weight (negate double) (b - b'0'))) % 10 ≡ 0)
      ↔ IsBlind a b
unfolding weight
weight_pair true sum a b ha hb h = (λ k. ground arith, λ k. ground arith)
weight_pair false sum a b ha hb h = (λ k. ground arith, λ k. ground arith)

are_digits-pair :
    (xs ys : List ℕ) (a b : ℕ) → are_digits (xs ++ a ∷ b ∷ ys) ≡ are_digits (xs ++ b ∷ a ∷ ys)
unfolding are_digits
are_digits-pair [] ys a b = ground arith
are_digits-pair (x ∷ xs) ys a b =
    ap (λ d. leb b'0' x && leb x b'9' && d) (are_digits-pair xs ys a b)

all_digits-are_digits :
    (xs ys : List ℕ) (a : ℕ) → all_digits (xs ++ a ∷ ys) ≡ are_digits (xs ++ a ∷ ys)
unfolding all_digits
all_digits-are_digits [] ys a = refl
all_digits-are_digits (x ∷ xs) ys a = refl

length-pair : (xs ys : List ℕ) (a b : ℕ) → length (xs ++ a ∷ b ∷ ys) ≡ length (xs ++ b ∷ a ∷ ys)
length-pair [] ys a b = refl
length-pair (x ∷ xs) ys a b = ap suc (length-pair xs ys a b)

-- Swapping two neighbours changes the verdict only through the sum.
valid_card_number-pair :
    (xs ys : List ℕ) (a b : ℕ)
    → valid_card_number (xs ++ a ∷ b ∷ ys) ≡ true
    → (valid_card_number (xs ++ b ∷ a ∷ ys) ≡ true)
      ↔ (luhn_from false 0 (reverse (xs ++ b ∷ a ∷ ys)) % 10 ≡ 0)
unfolding valid_card_number
valid_card_number-pair xs ys a b h = ground (
  arith,
  are_digits-pair xs ys a b,
  all_digits-are_digits xs (b ∷ ys) a,
  all_digits-are_digits xs (a ∷ ys) b,
  length-pair xs ys a b,
)

-- Where two neighbours of a valid card number are swapped, the result is valid exactly if they are
-- equal, or one is 0 and the other is 9.
pub valid_card_number-swapped :
    (xs ys : List ℕ) (a b : ℕ)
    → valid_card_number (xs ++ a ∷ b ∷ ys) ≡ true
    → (valid_card_number (xs ++ b ∷ a ∷ ys) ≡ true) ↔ IsBlind a b
valid_card_number-swapped xs ys a b h =
    let digits = are_digits-valid (xs ++ a ∷ b ∷ ys) h in
    let verdict = valid_card_number-pair xs ys a b h in
    let pair =
      weight_pair (doubled_after false (reverse ys)) (sum_around xs ys) a b
        (are_digits-middle xs (b ∷ ys) a digits)
        (are_digits-middle xs (a ∷ ys) b (sym (are_digits-pair xs ys a b) ∙ digits))
        (ap (λ n. n % 10) (sym (sum_pair xs ys a b)) ∙ sum-valid (xs ++ a ∷ b ∷ ys) h) in
    let swapped = ap (λ n. n % 10) (sum_pair xs ys b a) in
    (λ k. pair.0 (sym swapped ∙ verdict.0 k), λ k. verdict.1 (swapped ∙ pair.1 k))
