-- ===== src/Ordering/Orders/Checkout/Submitted.antt =====
-- internal/ordering/orders/checkout.go on the events of internal/basket/carts/checkout_basket.go.
use golang_microservices_eco.Prelude.{ℕ, ◌≡◌, ◌≢◌, refl, ap, List, [], ◌∷◌, map, true}
use golang_microservices_eco.Platform.Decimal.{Decimal, DecimalLaws}
use golang_microservices_eco.Platform.Basketv1.{Line, CheckoutSubmitted}
use golang_microservices_eco.Platform.Messaging.{Header}
use golang_microservices_eco.Basket.Carts
use golang_microservices_eco.Basket.Carts.{ShoppingCartItem, ShoppingCart}
use golang_microservices_eco.Basket.Checkout.{CheckoutBasketCommand, line_of, checkout_event}
use golang_microservices_eco.Ordering.Orders.Checkout
use golang_microservices_eco.Ordering.Orders.Checkout.{
  Error, Result, ok, err, no_items, total_mismatch, total_of, build, order_from,
}

module _ {Amount : Type 0} ⦃d : Decimal Amount⦄ where
  total_from-line_of :
      (total : Amount) (items : List (ShoppingCartItem Amount))
      → Checkout.total_from total (map line_of items) ≡ Carts.total_from total items
  unfolding Checkout.total_from Carts.total_from
  total_from-line_of total [] = refl
  total_from-line_of total (item ∷ items) =
      total_from-line_of (d.add total (d.mul item.price (d.new_from_int item.quantity))) items

  order_from-agrees :
      (order_id : ℕ) (draws : ℕ → ℕ) (event : CheckoutSubmitted Amount) (line : Line Amount)
      (lines : List (Line Amount))
      → event.items ≡ line ∷ lines
      → d.equal (total_of event.items) event.total_price ≡ true
      → order_from order_id draws event ≡ build order_id draws event
  unfolding order_from
  order_from-agrees order_id draws event line lines e agrees = rw e (rw (rw e at agrees) refl)

  module _ (laws : DecimalLaws d) where
    total-checkout_event :
        (header : Header) (c : CheckoutBasketCommand) (cart : ShoppingCart Amount)
        → d.equal
            (total_of (checkout_event header c cart).items)
            (checkout_event header c cart).total_price
          ≡ true
    unfolding checkout_event total_of Carts.total_price
    total-checkout_event header c cart =
        rw (total_from-line_of d.zero cart.items)
          (laws.equal_refl (Carts.total_from d.zero cart.items))

    -- The Ordering service takes the total that the Basket service announces for a basket with
    -- lines: it goes on to build the order.
    pub order_from-checkout_event :
        (header : Header) (c : CheckoutBasketCommand) (cart : ShoppingCart Amount) (order_id : ℕ)
        (draws : ℕ → ℕ)
        → cart.items ≢ []
        → order_from order_id draws (checkout_event header c cart)
          ≡ build order_id draws (checkout_event header c cart)
    unfolding checkout_event
    order_from-checkout_event header c cart order_id draws some_lines = go cart.items refl
      where
        go :
            (items : List (ShoppingCartItem Amount))
            → cart.items ≡ items
            → order_from order_id draws (checkout_event header c cart)
              ≡ build order_id draws (checkout_event header c cart)
        go [] e = elim (some_lines e) [ ]
        go (item ∷ items) e =
            order_from-agrees order_id draws (checkout_event header c cart) (line_of item)
              (map line_of items) (ap (map line_of) e) (total-checkout_event header c cart)
