-- ===== src/Examples/ConsumerExamples.antt =====
-- The cache of internal/basket/rediscache and the consumer of internal/ordering/orders, in whole
-- amounts.
use golang_microservices_eco.Prelude.{
  written, lost, ℕ, ◌≡◌, refl, ℤ, pos, List, [], ◌∷◌, true, false, Option, none, some,
}
use golang_microservices_eco.Platform.Decimal.{whole}
use golang_microservices_eco.Platform.Messaging.{Envelope, new_envelope}
use golang_microservices_eco.Platform.Basketv1.{CheckoutSubmitted}
use golang_microservices_eco.Basket.Checkout
use golang_microservices_eco.Basket.Checkout.{get_by_user_name}
use golang_microservices_eco.Basket.Cache.{
  get, usable, serve, read_through, store, checkout, refresh,
}
use golang_microservices_eco.Basket.Cache.Coherent.{lifted}
use golang_microservices_eco.Basket.Cache.Coherent.Runs.{
  Operation, gets, stores, checks_out, expires, run, uncached, get-run,
}
use golang_microservices_eco.Ordering.Domain.Order.{new_order, add}
use golang_microservices_eco.Ordering.Integration.{map_event}
use golang_microservices_eco.Ordering.Tables.{Tables, has}
use golang_microservices_eco.Ordering.Repository.Saved.Complete.{IsSaved}
use golang_microservices_eco.Ordering.Orders.Checkout.Placed.{IsPlaced}
use golang_microservices_eco.Ordering.Orders.Consumer.{handle}
use golang_microservices_eco.Ordering.Orders.Consumer.Stored.{handle-IsSaved}
use golang_microservices_eco.Examples.CheckoutExamples.{
  announcement, cart, db, event, draws, order, buyer, products, accepted,
}
use golang_microservices_eco.Examples.StoreExamples.{server, events_of, stock}

-- A read that fills the cache, a store, a lost write of the cache behind a read, a checkout.
abbrev operations : List (Operation ℤ)
operations =
    gets false false written "ada"
    ∷ stores written written 79 cart
    ∷ expires "ada"
    ∷ gets true false lost "ada"
    ∷ checks_out false written written "ada" announcement
    ∷ []

get-run_example :
    (get false false written "ada" (run operations (uncached db))).0
    ≡ lifted (get_by_user_name false "ada" (run operations (uncached db)).db)
unfolding store checkout refresh Checkout.store Checkout.checkout Checkout.clear Checkout.answered
    get usable serve read_through get_by_user_name
get-run_example =
    get-run operations db false written "ada"
      (λ h. cc, tt, (λ h. cc, λ h. cc, (λ h. cc, tt, (λ h. cc, tt, (λ h. cc, λ h. cc, tt)))))

abbrev decode : List ℕ → Option (CheckoutSubmitted ℤ)
decode payload = some event

abbrev created : Option Envelope
created = some (record {
  id = 100;
  contract = record { event_type = "ordering.order-created"; version = pos 2 };
  aggregate_id = "order";
  correlation_id = "request";
  occurred_on_utc = 0;
  payload = [];
})

handle-IsSaved_example :
    (stocked after : Tables ℤ) × (handle server events_of decode 5 40 draws announcement stock
      ≡ (none, after))
    × IsSaved server events_of 5 order stocked after
    × IsPlaced event order
unfolding map_event new_envelope new_order add has
handle-IsSaved_example =
    handle-IsSaved decode server events_of 5 40 draws announcement stock event order buyer products
      created (λ s. refl) (λ a. (a, refl)) refl accepted refl
      (record { lines = (refl, (refl, tt)); keyed = (refl, (refl, tt)); message = λ e h. refl })
