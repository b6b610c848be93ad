-- ===== src/Basket/Carts.antt =====
-- internal/basket/carts: cart.go and the discounts of store_basket.go. The Discount service is the
-- argument `amount_for`, with nothing where a lookup fails.
pub mod Discounts
use golang_microservices_eco.Prelude.{
  ℕ, String, ℤ, Bool, Option, none, some, List, [], ◌∷◌, if◌then◌else◌,
}
use golang_microservices_eco.Platform.Decimal.{Decimal}

infixl 5 ◌>>=◌
abbrev pub ◌>>=◌ : {A B : Type 0} → Option A → (A → Option B) → Option B
none >>= f = none
some a >>= f = f a

pub record ShoppingCartItem (Amount : Type 0) : Type 0 where
  pub quantity : ℤ
  pub color : String
  pub price : Amount
  pub product_id : ℕ
  pub product_name : String

pub record ShoppingCart (Amount : Type 0) : Type 0 where
  pub user_name : String
  pub items : List (ShoppingCartItem Amount)
  pub version : ℕ

module _ {Amount : Type 0} ⦃d : Decimal Amount⦄ where
  -- The loop of TotalPrice.
  unfoldable pub total_from : Amount → List (ShoppingCartItem Amount) → Amount
  total_from total [] = total
  total_from total (item ∷ items) =
      total_from (d.add total (d.mul item.price (d.new_from_int item.quantity))) items

  unfoldable pub total_price : ShoppingCart Amount → Amount
  unfolding total_from
  total_price c = total_from d.zero c.items

  -- The price behind a coupon.
  unfoldable pub discounted_price : Amount → ℤ → Amount
  discounted_price price amount =
      let reduced = d.sub price (d.new_from_int amount) in
      if d.is_negative reduced then d.zero else reduced

  -- The loop of applyDiscounts.
  unfoldable pub discount_items :
      (String → Option ℤ) → List (ShoppingCartItem Amount) → Option (List (ShoppingCartItem Amount))
  unfolding discounted_price
  discount_items amount_for [] = some []
  discount_items amount_for (item ∷ items) = do
    amount ← amount_for item.product_name
    rest ← discount_items amount_for items
    some (record item { price = discounted_price item.price amount } ∷ rest)

  unfoldable pub apply_discounts :
      (String → Option ℤ) → ShoppingCart Amount → Option (ShoppingCart Amount)
  unfolding discount_items
  apply_discounts amount_for cart = do
    items ← discount_items amount_for cart.items
    some (record cart { items = items })
