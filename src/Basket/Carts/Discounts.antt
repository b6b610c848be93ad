-- ===== src/Basket/Carts/Discounts.antt =====
-- internal/basket/carts/store_basket.go: a basket before and after applyDiscounts.
use golang_microservices_eco.Prelude.{
  String, ℤ, false, Option, some, List, [], ◌∷◌, ◌≡◌, refl, ap, All, map, Option-cases, inl, inr,
  arith, subst,
}
use golang_microservices_eco.Platform.Decimal.{Decimal, DecimalLaws}
use golang_microservices_eco.Basket.Carts.{
  ShoppingCartItem, ShoppingCart, discounted_price, discount_items, apply_discounts,
}

module _ {Amount : Type 0} ⦃d : Decimal Amount⦄ where
  -- A line with its price left out.
  abbrev unpriced : ShoppingCartItem Amount → ShoppingCartItem Amount
  unpriced item = record item { price = d.zero }

  -- What a cart with discounts is to the cart without.
  pub record IsDiscounted (cart discounted : ShoppingCart Amount) : Type 0 where
    pub owner : discounted.user_name ≡ cart.user_name
    pub version_kept : discounted.version ≡ cart.version
    pub lines : map unpriced discounted.items ≡ map unpriced cart.items
    pub prices : All (λ item. d.is_negative item.price ≡ false) discounted.items

  module _ (laws : DecimalLaws d) (amount_for : String → Option ℤ) where
    discounted_price-not_negative :
        (price : Amount) (amount : ℤ) → d.is_negative (discounted_price price amount) ≡ false
    unfolding discounted_price
    discounted_price-not_negative price amount = ground (arith, laws.zero_not_negative)

    discount_items-lem :
        (items discounted : List (ShoppingCartItem Amount))
        → discount_items amount_for items ≡ some discounted
        → (map unpriced discounted ≡ map unpriced items)
          × All (λ item. d.is_negative item.price ≡ false) discounted
    unfolding discount_items
    discount_items-lem [] discounted h =
        let e : [] ≡ discounted = cc in
        subst (λ l. (map unpriced l ≡ []) × All (λ item. d.is_negative item.price ≡ false) l) e
          (refl, tt)
    discount_items-lem (item ∷ items) discounted h =
        elim (Option-cases (amount_for item.product_name)) [
          | inl failed ↦ cc (rw failed at h)
          | inr (amount, looked_up) ↦ elim (Option-cases (discount_items amount_for items)) [
            | inl failed ↦ cc (rw (looked_up, failed) at h)
            | inr (rest, looped) ↦
                let done : some (record item { price = discounted_price item.price amount } ∷ rest)
                    ≡ some discounted =
                  rw (looked_up, looped) at h in
                let e : (record item { price = discounted_price item.price amount } ∷ rest)
                    ≡ discounted =
                  cc in
                let (same, priced) = discount_items-lem items rest looped in
                subst
                  (λ l.
                    (map unpriced l ≡ map unpriced (item ∷ items))
                    × All (λ item. d.is_negative item.price ≡ false) l)
                  e
                  (
                    ap (λ l. unpriced item ∷ l) same,
                    (discounted_price-not_negative item.price amount, priced),
                  )
          ]
        ]

    -- Where every lookup succeeds, the discounts change nothing of a cart but the prices of its
    -- lines, and leave no negative one.
    pub apply_discounts-IsDiscounted :
        (cart discounted : ShoppingCart Amount)
        → apply_discounts amount_for cart ≡ some discounted
        → IsDiscounted cart discounted
    unfolding apply_discounts
    apply_discounts-IsDiscounted cart discounted h =
        elim (Option-cases (discount_items amount_for cart.items)) [
          | inl failed ↦ cc (rw failed at h)
          | inr (items, looped) ↦
              let done : some (record cart { items = items }) ≡ some discounted = rw looped at h in
              let e : record cart { items = items } ≡ discounted = cc in
              let (same, priced) = discount_items-lem cart.items items looped in
              subst (IsDiscounted cart) e
                (record { owner = refl; version_kept = refl; lines = same; prices = priced })
        ]
