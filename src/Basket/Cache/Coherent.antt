-- ===== src/Basket/Cache/Coherent.antt =====
-- internal/basket/rediscache/repository.go: what the cache serves.
pub mod Runs
use golang_microservices_eco.Prelude.{
  Write, written, lost, unconfirmed, ℕ, ◌==◌, ◌≡◌, ◌≢◌, refl, sym, ap, ◌∙◌, subst, arith, String,
  str_eq, eq_iff, Bool, Bool-cases, Option-cases, true, false, inl, inr, Option, none, some, List,
  [], ◌∷◌, Fallible, Fallible-cases, if◌then◌else◌,
}
use golang_microservices_eco.Platform.Messaging.{Envelope}
use golang_microservices_eco.Basket.Carts.{ShoppingCart}
use golang_microservices_eco.Basket.Checkout
use golang_microservices_eco.Basket.Checkout.{
  BasketRow, Database, found, get_by_user_name, set_basket,
}
use golang_microservices_eco.Basket.Cache.{
  Error, inner, cache, ok, err, State, put, write, usable, read_through, serve, get, refresh, store,
  delete, checkout,
}

-- The answer of the database as the cache's repository gives it.
abbrev pub lifted : {A : Type 0} → Checkout.Result A → Fallible Error A
lifted (Checkout.ok a) = ok a
lifted (Checkout.err e) = err (inner e)

module _ {Amount : Type 0} where
  -- What the cache would serve is what the database holds.
  abbrev pub IsCoherent : State Amount → Type 0
  IsCoherent s =
      (name : String) (entry : ShoppingCart Amount)
      → usable (s.cache name) ≡ some entry
      → found name (s.db.baskets name) ≡ Checkout.ok entry

  found-user_name :
      (name : String) (row : Option (BasketRow Amount)) (cart : ShoppingCart Amount)
      → found name row ≡ Checkout.ok cart
      → cart.user_name ≡ name
  unfolding found
  found-user_name name none cart h = cc
  found-user_name name (some row) cart h = ap (λ c. c.user_name) (sym (Checkout.ok-injective h))

  -- The database and the cache change at one name, and agree there.
  pub put-IsCoherent :
      (s : State Amount) (db : Database Amount) (name : String)
      (entry : Option (Option (ShoppingCart Amount)))
      → IsCoherent s
      → ((other : String) → str_eq other name ≡ false → db.baskets other ≡ s.db.baskets other)
      → ((e : ShoppingCart Amount)
          → usable entry ≡ some e
          → found name (db.baskets name) ≡ Checkout.ok e)
      → IsCoherent (put name entry (record s { db = db }))
  put-IsCoherent s db name entry c others here other e h = elim (Bool-cases (str_eq other name)) [
    | inl same ↦
        let same_name : other ≡ name = (eq_iff other name).0 same in
        rw same_name (here e (rw same at h))
    | inr differs ↦ rw (others other differs) (c other e (rw differs at h))
  ]

  -- An entry that is served is the cart that was written.
  pub usable-cart : (cart e : ShoppingCart Amount) → usable (some (some cart)) ≡ some e → cart ≡ e
  unfolding usable
  usable-cart cart e h = elim (Bool-cases (cart.version == 0)) [
    | inl old ↦ cc (rw old at h)
    | inr versioned ↦ let same : some cart ≡ some e = rw versioned at h in cc
  ]

  -- A write beside a change of the database at one name, unless it was lost.
  write-IsCoherent :
      (outcome : Write) (s : State Amount) (db : Database Amount) (name : String)
      (entry : Option (Option (ShoppingCart Amount)))
      → IsCoherent s
      → ((other : String) → str_eq other name ≡ false → db.baskets other ≡ s.db.baskets other)
      → ((e : ShoppingCart Amount)
          → usable entry ≡ some e
          → found name (db.baskets name) ≡ Checkout.ok e)
      → (write outcome name entry (record s { db = db })).0 ≡ false
      → IsCoherent (write outcome name entry (record s { db = db })).1
  write-IsCoherent written s db name entry c others here h =
      put-IsCoherent s db name entry c others here
  write-IsCoherent lost s db name entry c others here h = cc
  write-IsCoherent unconfirmed s db name entry c others here h = cc

  read_through-IsCoherent :
      (outcome : Write) (name : String) (r : Checkout.Result (ShoppingCart Amount))
      (s : State Amount)
      → IsCoherent s
      → ((cart : ShoppingCart Amount)
          → r ≡ Checkout.ok cart
          → found name (s.db.baskets name) ≡ Checkout.ok cart)
      → IsCoherent (read_through outcome r s).1
  unfolding read_through
  read_through-IsCoherent outcome name (Checkout.err e) s c here = c
  read_through-IsCoherent lost name (Checkout.ok cart) s c here = c
  read_through-IsCoherent written name (Checkout.ok cart) s c here =
      subst (λ n. IsCoherent (put n (some (some cart)) s))
        (sym (found-user_name name (s.db.baskets name) cart (here cart refl)))
        (put-IsCoherent s s.db name (some (some cart)) c (λ _ _. refl)
          (λ e h. here cart refl ∙ ap Checkout.ok (usable-cart cart e h)))
  read_through-IsCoherent unconfirmed name (Checkout.ok cart) s c here =
      subst (λ n. IsCoherent (put n (some (some cart)) s))
        (sym (found-user_name name (s.db.baskets name) cart (here cart refl)))
        (put-IsCoherent s s.db name (some (some cart)) c (λ _ _. refl)
          (λ e h. here cart refl ∙ ap Checkout.ok (usable-cart cart e h)))

  read-found :
      (fails : Bool) (name : String) (db : Database Amount) (cart : ShoppingCart Amount)
      → get_by_user_name fails name db ≡ Checkout.ok cart
      → found name (db.baskets name) ≡ Checkout.ok cart
  unfolding get_by_user_name
  read-found true name db cart h = cc
  read-found false name db cart h = h

  serve-IsCoherent :
      (get_fails : Bool) (outcome : Write) (name : String) (entry : Option (ShoppingCart Amount))
      (s : State Amount)
      → IsCoherent s
      → IsCoherent (serve get_fails outcome name entry s).1
  unfolding serve
  serve-IsCoherent get_fails outcome name (some entry) s c = c
  serve-IsCoherent get_fails outcome name none s c =
      read_through-IsCoherent outcome name (get_by_user_name get_fails name s.db) s c
        (read-found get_fails name s.db)

  pub get-IsCoherent :
      (cache_fails get_fails : Bool) (outcome : Write) (name : String) (s : State Amount)
      → IsCoherent s
      → IsCoherent (get cache_fails get_fails outcome name s).1
  unfolding get
  get-IsCoherent cache_fails get_fails outcome name s c =
      serve-IsCoherent get_fails outcome name (if cache_fails then none else usable (s.cache name))
        s c

  read_through-answer :
      (outcome : Write) (r : Checkout.Result (ShoppingCart Amount)) (s : State Amount)
      → (read_through outcome r s).0 ≡ lifted r
  unfolding read_through
  read_through-answer outcome (Checkout.err e) s = refl
  read_through-answer outcome (Checkout.ok cart) s = refl

  serve-answer :
      (outcome : Write) (name : String) (entry : Option (ShoppingCart Amount)) (s : State Amount)
      → ((e : ShoppingCart Amount)
          → entry ≡ some e
          → found name (s.db.baskets name) ≡ Checkout.ok e)
      → (serve false outcome name entry s).0 ≡ lifted (get_by_user_name false name s.db)
  unfolding serve get_by_user_name
  serve-answer outcome name (some entry) s here = ap lifted (sym (here entry refl))
  serve-answer outcome name none s here =
      read_through-answer outcome (found name (s.db.baskets name)) s

  pub get-answer :
      (cache_fails : Bool) (outcome : Write) (name : String) (s : State Amount)
      → IsCoherent s
      → (get cache_fails false outcome name s).0 ≡ lifted (get_by_user_name false name s.db)
  unfolding get
  get-answer true outcome name s c = serve-answer outcome name none s (λ e h. cc)
  get-answer false outcome name s c =
      serve-answer outcome name (usable (s.cache name)) s (λ e h. c name e h)

  pub refresh-IsCoherent :
      (outcome : Write) (s : State Amount) (db : Database Amount) (name : String)
      (entry : Option (Option (ShoppingCart Amount))) (failure : Option Checkout.Error)
      → IsCoherent s
      → ((other : String) → str_eq other name ≡ false → db.baskets other ≡ s.db.baskets other)
      → ((e : Checkout.Error) → failure ≡ some e → db ≡ s.db)
      → (failure ≡ none
          → (e : ShoppingCart Amount) → usable entry ≡ some e
          → found name (db.baskets name) ≡ Checkout.ok e)
      → (refresh outcome name entry failure (record s { db = db })).0 ≢ some cache
      → IsCoherent (refresh outcome name entry failure (record s { db = db })).1
  unfolding refresh
  refresh-IsCoherent outcome s db name entry (some e) c others same here h = rw (same e refl) c
  refresh-IsCoherent outcome s db name entry none c others same here h =
      elim (Bool-cases (write outcome name entry (record s { db = db })).0) [
        | inl failed ↦ elim (h (rw failed refl)) [ ]
        | inr works ↦ write-IsCoherent outcome s db name entry c others (here refl) works
      ]
