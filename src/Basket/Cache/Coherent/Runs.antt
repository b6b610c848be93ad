-- ===== src/Basket/Cache/Coherent/Runs.antt =====
-- internal/basket/rediscache/repository.go: sequences of calls.
use golang_microservices_eco.Prelude.{
  Write, written, lost, unconfirmed, ℕ, ◌==◌, ◌≡◌, ◌≢◌, refl, String, str_eq, eq_iff, Bool,
  Bool-cases, true, false, inl, inr, Option, none, some, List, [], ◌∷◌, ap, ◌∙◌,
}
use golang_microservices_eco.Platform.Messaging.{Envelope}
use golang_microservices_eco.Basket.Carts.{ShoppingCart}
use golang_microservices_eco.Basket.Checkout
use golang_microservices_eco.Basket.Checkout.{
  BasketRow, Database, found, get_by_user_name, set_basket, clear,
}
use golang_microservices_eco.Basket.Cache.{
  Error, cache, State, put, usable, get, store, delete, checkout,
}
use golang_microservices_eco.Basket.Cache.Coherent.{
  lifted, IsCoherent, get-IsCoherent, get-answer, refresh-IsCoherent, put-IsCoherent, usable-cart,
}

-- A call, with what the database and Redis do to it, or the expiry of an entry.
pub data Operation (Amount : Type 0) : Type 0 where
  gets : Bool → Bool → Write → String → Operation Amount
  stores : Write → Write → ℕ → ShoppingCart Amount → Operation Amount
  deletes : Write → Write → String → Operation Amount
  checks_out : Bool → Write → Write → String → Envelope → Operation Amount
  expires : String → Operation Amount

module _ {Amount : Type 0} where
  -- The error that a call which writes reports, and the state.
  abbrev pub step : Operation Amount → State Amount → Option Error × State Amount
  step (gets cache_fails get_fails outcome name) s =
      (none, (get cache_fails get_fails outcome name s).1)
  step (stores kept outcome fresh cart) s = store kept outcome fresh cart s
  step (deletes kept outcome name) s = delete kept outcome name s
  step (checks_out delete_fails kept outcome name announcement) s =
      checkout delete_fails kept outcome name announcement s
  step (expires name) s = (none, put name none s)

  abbrev pub run : List (Operation Amount) → State Amount → State Amount
  run [] s = s
  run (op ∷ ops) s = run ops (step op s).1

  -- The database answers what it has written.
  abbrev pub IsAnswered : Operation Amount → Type 0
  IsAnswered (gets cache_fails get_fails outcome name) = Unit
  IsAnswered (stores kept outcome fresh cart) = kept ≢ unconfirmed
  IsAnswered (deletes kept outcome name) = kept ≢ unconfirmed
  IsAnswered (checks_out delete_fails kept outcome name announcement) = kept ≢ unconfirmed
  IsAnswered (expires name) = Unit

  -- No call of a run reports that the cache is out of step, and none misses the answer of a write.
  abbrev pub IsInStep : List (Operation Amount) → State Amount → Type 0
  IsInStep [] s = Unit
  IsInStep (op ∷ ops) s = ((step op s).0 ≢ some cache) × IsAnswered op × IsInStep ops (step op s).1

  -- A change of the baskets at one name.
  abbrev Changes : String → Database Amount → Database Amount → Type 0
  Changes name db db' =
      (other : String) → str_eq other name ≡ false → db'.baskets other ≡ db.baskets other

  set_basket-Changes :
      (name : String) (row : Option (BasketRow Amount)) (db : Database Amount)
      → Changes name db (set_basket name row db)
  set_basket-Changes name row db other h = rw h refl

  usable-none : (e : ShoppingCart Amount) → usable none ≢ some e
  unfolding usable
  usable-none e h = cc

  -- What a Store leaves in the database is the cart with its fresh version.
  stored-found :
      (fresh : ℕ) (cart : ShoppingCart Amount) (db : Database Amount)
      → found cart.user_name (
          (Checkout.store written fresh (record cart { version = fresh }) db).1.baskets
            cart.user_name)
        ≡ Checkout.ok (record cart { version = fresh })
  unfolding found Checkout.store Checkout.answered
  stored-found fresh cart db =
      let here : str_eq cart.user_name cart.user_name ≡ true =
        (eq_iff cart.user_name cart.user_name).1 refl in
      elim (Bool-cases (fresh == 0)) [
        | inl nil ↦ rw (here, nil) refl
        | inr drawn ↦ rw (here, drawn) refl
      ]

  store-IsCoherent :
      (kept outcome : Write) (fresh : ℕ) (cart : ShoppingCart Amount) (s : State Amount)
      → IsCoherent s
      → kept ≢ unconfirmed
      → (store kept outcome fresh cart s).0 ≢ some cache
      → IsCoherent (store kept outcome fresh cart s).1
  unfolding store Checkout.store Checkout.answered
  store-IsCoherent unconfirmed outcome fresh cart s c heard h = absurd (heard refl)
  store-IsCoherent lost outcome fresh cart s c heard h =
      refresh-IsCoherent outcome s s.db cart.user_name
        (some (some (record cart { version = fresh }))) (some Checkout.database) c (λ _ _. refl)
        (λ _ _. refl) (λ e. cc) h
  store-IsCoherent written outcome fresh cart s c heard h =
      let versioned = record cart { version = fresh } in
      let db = (Checkout.store written fresh versioned s.db).1 in
      refresh-IsCoherent outcome s db cart.user_name (some (some versioned)) none c
        (set_basket-Changes cart.user_name _ s.db) (λ e k. cc)
        (λ _ e k. stored-found fresh cart s.db ∙ ap Checkout.ok (usable-cart versioned e k)) h

  delete-IsCoherent :
      (kept outcome : Write) (name : String) (s : State Amount)
      → IsCoherent s
      → kept ≢ unconfirmed
      → (delete kept outcome name s).0 ≢ some cache
      → IsCoherent (delete kept outcome name s).1
  unfolding delete Checkout.delete Checkout.answered
  delete-IsCoherent unconfirmed outcome name s c heard h = absurd (heard refl)
  delete-IsCoherent lost outcome name s c heard h =
      refresh-IsCoherent outcome s s.db name none (some Checkout.database) c (λ _ _. refl)
        (λ _ _. refl) (λ e. cc) h
  delete-IsCoherent written outcome name s c heard h =
      refresh-IsCoherent outcome s (set_basket name none s.db) name none none c
        (set_basket-Changes name none s.db) (λ e k. cc) (λ _ e k. absurd (usable-none e k)) h

  clear-Changes :
      (kept : Write) (name : String) (announcement : Envelope) (row : Option (BasketRow Amount))
      (db : Database Amount)
      → kept ≢ unconfirmed
      → Changes name db (clear kept name announcement row db).1
        × ((e : Checkout.Error)
            → (clear kept name announcement row db).0 ≡ some e
            → (clear kept name announcement row db).1 ≡ db)
  unfolding clear Checkout.answered
  clear-Changes kept name announcement none db heard = (λ _ _. refl, λ _ _. refl)
  clear-Changes written name announcement (some row) db heard =
      (set_basket-Changes name none db, λ e h. cc)
  clear-Changes lost name announcement (some row) db heard = (λ _ _. refl, λ _ _. refl)
  clear-Changes unconfirmed name announcement (some row) db heard = absurd (heard refl)

  -- What a checkout does to the baskets.
  checkout-Changes :
      (delete_fails : Bool) (kept : Write) (name : String) (announcement : Envelope)
      (db : Database Amount)
      → kept ≢ unconfirmed
      → Changes name db (Checkout.checkout delete_fails kept name announcement db).1
        × ((e : Checkout.Error)
            → (Checkout.checkout delete_fails kept name announcement db).0 ≡ some e
            → (Checkout.checkout delete_fails kept name announcement db).1 ≡ db)
  unfolding Checkout.checkout
  checkout-Changes true kept name announcement db heard = (λ _ _. refl, λ _ _. refl)
  checkout-Changes false kept name announcement db heard =
      clear-Changes kept name announcement (db.baskets name) db heard

  checkout-IsCoherent :
      (delete_fails : Bool) (kept outcome : Write) (name : String) (announcement : Envelope)
      (s : State Amount)
      → IsCoherent s
      → kept ≢ unconfirmed
      → (checkout delete_fails kept outcome name announcement s).0 ≢ some cache
      → IsCoherent (checkout delete_fails kept outcome name announcement s).1
  unfolding checkout
  checkout-IsCoherent delete_fails kept outcome name announcement s c heard h =
      let (failure, db) = Checkout.checkout delete_fails kept name announcement s.db in
      let (others, same) = checkout-Changes delete_fails kept name announcement s.db heard in
      refresh-IsCoherent outcome s db name none failure c others same
        (λ _ e k. absurd (usable-none e k)) h

  step-IsCoherent :
      (op : Operation Amount) (s : State Amount)
      → IsCoherent s
      → (step op s).0 ≢ some cache
      → IsAnswered op
      → IsCoherent (step op s).1
  step-IsCoherent (gets cache_fails get_fails outcome name) s c h heard =
      get-IsCoherent cache_fails get_fails outcome name s c
  step-IsCoherent (stores kept outcome fresh cart) s c h heard =
      store-IsCoherent kept outcome fresh cart s c heard h
  step-IsCoherent (deletes kept outcome name) s c h heard =
      delete-IsCoherent kept outcome name s c heard h
  step-IsCoherent (checks_out delete_fails kept outcome name announcement) s c h heard =
      checkout-IsCoherent delete_fails kept outcome name announcement s c heard h
  step-IsCoherent (expires name) s c h heard =
      put-IsCoherent s s.db name none c (λ _ _. refl) (λ e k. absurd (usable-none e k))

  run-IsCoherent :
      (ops : List (Operation Amount)) (s : State Amount)
      → IsCoherent s
      → IsInStep ops s
      → IsCoherent (run ops s)
  run-IsCoherent [] s c h = c
  run-IsCoherent (op ∷ ops) s c h =
      run-IsCoherent ops (step op s).1 (step-IsCoherent op s c h.0 h.1) h.2

  abbrev pub uncached : Database Amount → State Amount
  uncached db = record { db = db; cache = λ _. none }

  -- Whichever calls the database and Redis refuse and whenever entries expire, as long as no call has
  -- reported that the cache is out of step and the database has answered every write that it applied,
  -- a read that the database answers returns the database's answer, be it from the cache or not.
  pub get-run :
      (ops : List (Operation Amount)) (db : Database Amount) (cache_fails : Bool) (outcome : Write)
      (name : String)
      → IsInStep ops (uncached db)
      → (get cache_fails false outcome name (run ops (uncached db))).0
        ≡ lifted (get_by_user_name false name (run ops (uncached db)).db)
  get-run ops db cache_fails outcome name h =
      get-answer cache_fails outcome name (run ops (uncached db))
        (run-IsCoherent ops (uncached db) (λ n e k. absurd (usable-none e k)) h)
