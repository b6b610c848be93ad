-- ===== src/Platform/Decimal.antt =====
-- The interface of github.com/shopspring/decimal that the services use, and a value of it.
use golang_microservices_eco.Prelude.{
  Bool, true, false, ◌≡◌, refl, arith, ℤ, pos, add_ℤ, sub_ℤ, mul_ℤ, leb_ℤ, ltb_ℤ, ◌&&◌,
}

pub record Decimal (Amount : Type 0) : Type 0 where
  pub zero : Amount
  pub add : Amount → Amount → Amount
  pub sub : Amount → Amount → Amount
  pub mul : Amount → Amount → Amount
  pub new_from_int : ℤ → Amount
  pub less_than_or_equal : Amount → Amount → Bool
  pub equal : Amount → Amount → Bool
  pub is_negative : Amount → Bool

-- The documented behaviour that some theorems rely on: Equal is reflexive, and zero is at most
-- zero and not negative.
pub record DecimalLaws {Amount : Type 0} (d : Decimal Amount) : Type 0 where
  pub equal_refl : (a : Amount) → d.equal a a ≡ true
  pub zero-le-zero : d.less_than_or_equal d.zero d.zero ≡ true
  pub zero_not_negative : d.is_negative d.zero ≡ false

-- Whole amounts, to run the definitions on.
instance abbrev pub whole : Decimal ℤ
whole = record {
  zero = pos 0;
  add = add_ℤ;
  sub = sub_ℤ;
  mul = mul_ℤ;
  new_from_int = λ n. n;
  less_than_or_equal = leb_ℤ;
  equal = λ a b. leb_ℤ a b && leb_ℤ b a;
  is_negative = λ a. ltb_ℤ a (pos 0);
}

whole_equal_refl : (a : ℤ) → whole.equal a a ≡ true
whole_equal_refl a = ground arith

pub whole-DecimalLaws : DecimalLaws whole
whole-DecimalLaws = record {
  equal_refl = whole_equal_refl;
  zero-le-zero = refl;
  zero_not_negative = refl;
}
