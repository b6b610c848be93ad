-- ===== src/Basket/Cache.antt =====
-- internal/basket/rediscache/repository.go over the repository of internal/basket/postgres. An entry
-- of the cache is the cart that decoding its bytes gives, or nothing where they are unreadable; what
-- encoding writes is read back. What becomes of a write to Redis or to the database is an argument. An
-- entry may expire at any time. One call runs at a time.
pub mod Coherent
pub use golang_microservices_eco.Prelude.{ok, err}
use golang_microservices_eco.Prelude.{
  Write, written, lost, unconfirmed, Fallible, ℕ, ◌==◌, String, Bool, true, false, Option, none,
  some, List, [], ◌∷◌, if◌then◌else◌, negate, str_eq,
}
use golang_microservices_eco.Platform.Messaging.{Envelope}
use golang_microservices_eco.Basket.Carts.{ShoppingCart}
use golang_microservices_eco.Basket.Checkout
use golang_microservices_eco.Basket.Checkout.{Database, get_by_user_name}

-- An error of the repository underneath, or that the cache could not be brought in step.
pub data Error : Type 0 where
  inner : Checkout.Error → Error
  cache : Error

pub record State (Amount : Type 0) : Type 0 where
  pub db : Database Amount
  pub cache : String → Option (Option (ShoppingCart Amount))

module _ {Amount : Type 0} where
  abbrev pub put : String → Option (Option (ShoppingCart Amount)) → State Amount → State Amount
  put user_name entry s = record s {
    cache = λ other. if str_eq other user_name then entry else s.cache other;
  }

  -- What a write leaves, and whether it reports an error.
  abbrev pub write :
      Write → String → Option (Option (ShoppingCart Amount)) → State Amount → Bool × State Amount
  write written user_name entry s = (false, put user_name entry s)
  write lost user_name entry s = (true, s)
  write unconfirmed user_name entry s = (true, put user_name entry s)

  -- What the cache has to serve: a readable entry with a version.
  unfoldable pub usable : Option (Option (ShoppingCart Amount)) → Option (ShoppingCart Amount)
  usable none = none
  usable (some none) = none
  usable (some (some entry)) = if entry.version == 0 then none else some entry

  -- GetByUserName, behind the cache.
  unfoldable pub read_through :
      Write
      → Checkout.Result (ShoppingCart Amount)
      → State Amount
      → Fallible Error (ShoppingCart Amount) × State Amount
  read_through outcome (Checkout.err e) s = (err (inner e), s)
  read_through outcome (Checkout.ok cart) s =
      (ok cart, (write outcome cart.user_name (some (some cart)) s).1)

  unfoldable pub serve :
      Bool
      → Write
      → String
      → Option (ShoppingCart Amount)
      → State Amount
      → Fallible Error (ShoppingCart Amount) × State Amount
  unfolding read_through
  serve get_fails outcome user_name (some entry) s = (ok entry, s)
  serve get_fails outcome user_name none s =
      read_through outcome (get_by_user_name get_fails user_name s.db) s

  -- GetByUserName.
  unfoldable pub get :
      Bool
      → Bool
      → Write
      → String
      → State Amount
      → Fallible Error (ShoppingCart Amount) × State Amount
  unfolding serve usable
  get cache_fails get_fails outcome user_name s =
      serve get_fails outcome user_name (if cache_fails then none else usable (s.cache user_name)) s

  -- The end of a call that writes: the error, if there is one.
  unfoldable pub refresh :
      Write
      → String
      → Option (Option (ShoppingCart Amount))
      → Option Checkout.Error
      → State Amount
      → Option Error × State Amount
  refresh outcome user_name entry (some e) after = (some (inner e), after)
  refresh outcome user_name entry none after =
      let (failed, s) = write outcome user_name entry after in
      (if failed then some cache else none, s)

  -- Store; `fresh` is the version that uuid.New draws.
  unfoldable pub store :
      Write → Write → ℕ → ShoppingCart Amount → State Amount → Option Error × State Amount
  unfolding refresh
  store kept outcome fresh cart s =
      let versioned = record cart { version = fresh } in
      let (failure, db) = Checkout.store kept fresh versioned s.db in
      refresh outcome cart.user_name (some (some versioned)) failure (record s { db = db })

  -- Delete.
  unfoldable pub delete : Write → Write → String → State Amount → Option Error × State Amount
  unfolding refresh
  delete kept outcome user_name s =
      let (failure, db) = Checkout.delete kept user_name s.db in
      refresh outcome user_name none failure (record s { db = db })

  -- Checkout.
  unfoldable pub checkout :
      Bool → Write → Write → String → Envelope → State Amount → Option Error × State Amount
  unfolding refresh
  checkout delete_fails kept outcome user_name announcement s =
      let (failure, db) = Checkout.checkout delete_fails kept user_name announcement s.db in
      refresh outcome user_name none failure (record s { db = db })
