-- ===== src/Ordering/Repository/Stocked.antt =====
-- internal/ordering/mssql/repository.go: the products of Place where the database takes every
-- statement.
use golang_microservices_eco.Prelude.{
  ℕ, ◌==◌, ◌≡◌, refl, arith, Bool-cases, true, false, inl, inr, some, List, [], ◌∷◌, any, All,
  All-map, ok,
}
use golang_microservices_eco.Ordering.Domain.Values.{Product}
use golang_microservices_eco.Ordering.Tables.{Tables, has, merge}
use golang_microservices_eco.Ordering.Tables.Merge.{merge-has, merge-has-old}
use golang_microservices_eco.Ordering.Repository.{
  Server, Statement, insert_product, add_product_if_unknown, add_products,
}

-- A key that is among those that were seen.
any-has :
    {A : Type 0} (id : A → ℕ) (key : ℕ) (seen : List ℕ) (rows : List A)
    → All (λ k. has id k rows ≡ true) seen
    → any (λ k. k == key) seen ≡ true
    → has id key rows ≡ true
any-has id key [] rows all h = cc
any-has id key (k ∷ seen) rows all h = elim (Bool-cases (k == key)) [
  | inl here ↦ let e : k ≡ key = ground arith in rw (← e) (all.0)
  | inr other ↦ any-has id key seen rows all.1 (rw other at h)
]

module _ {Amount : Type 0} where
  -- The products are there, and the rest is as it was.
  pub record IsStocked (products : List (Product Amount)) (db after : Tables Amount) : Type 0 where
    pub kept :
        (key : ℕ)
        → has (λ p. p.id) key db.products ≡ true
        → has (λ p. p.id) key after.products ≡ true
    pub there : All (λ p. has (λ q. q.id) p.id after.products ≡ true) products
    pub customers : after.customers ≡ db.customers
    pub lines : after.order_items ≡ db.order_items
    pub messages : after.outbox_messages ≡ db.outbox_messages

  module _ (server : Server Amount) (works : (s : Statement Amount) → server.fails s ≡ false)
      (takes : (a : Amount) → (p : Amount) × (server.column a ≡ some p)) where
    add_product-works :
        (product : Product Amount) (db : Tables Amount)
        → (price : Amount) × (add_product_if_unknown server product db
            ≡ ok (record db {
              products = merge (λ p. p.id) (λ p. p) (record product { price = price }) db.products;
            }))
    unfolding add_product_if_unknown insert_product
    add_product-works product db =
        let (price, taken) = takes product.price in (price, rw (works, taken) refl)

    pub add_products-works :
        (products : List (Product Amount)) (seen : List ℕ) (db : Tables Amount)
        → All (λ k. has (λ p. p.id) k db.products ≡ true) seen
        → (after : Tables Amount) × (add_products server seen products db ≡ ok after)
          × IsStocked products db after
    unfolding add_products
    add_products-works [] seen db known = (
      db,
      refl,
      record { kept = λ k h. h; there = tt; customers = refl; lines = refl; messages = refl },
    )
    add_products-works (product ∷ products) seen db known =
        elim (Bool-cases (any (λ id. id == product.id) seen)) [
          | inl again ↦
              let (after, done, s) = add_products-works products seen db known in
              (
                after,
                rw again done,
                record {
                  kept = s.kept;
                  there = (
                    s.kept product.id (any-has (λ p. p.id) product.id seen db.products known again),
                    s.there,
                  );
                  customers = s.customers;
                  lines = s.lines;
                  messages = s.messages;
                },
              )
          | inr first ↦
              let (price, added) = add_product-works product db in
              let new = record product { price = price } in
              let same : (row : Product Amount)
                  → (row.id == product.id) ≡ true
                  → row.id ≡ product.id =
                λ row e. ground arith in
              let db' : Tables Amount = record db {
                products = merge (λ p. p.id) (λ p. p) new db.products;
              } in
              let older : (k : ℕ)
                  → has (λ p. p.id) k db.products ≡ true
                  → has (λ p. p.id) k db'.products ≡ true =
                λ k h. merge-has-old (λ p. p.id) (λ p. p) new k db.products same h in
              let here = merge-has (λ p. p.id) (λ p. p) new db.products same in
              let (after, done, s) =
                add_products-works products (product.id ∷ seen) db'
                  (here, All-map _ _ seen older known) in
              (
                after,
                rw (first, added) done,
                record {
                  kept = λ k h. s.kept k (older k h);
                  there = (s.kept product.id here, s.there);
                  customers = s.customers;
                  lines = s.lines;
                  messages = s.messages;
                },
              )
        ]
