-- ===== src/Ordering/Repository/Placed.antt =====
-- internal/ordering/mssql/repository.go: the customer and the products of Place.
use golang_microservices_eco.Prelude.{
  ℕ, ◌==◌, ◌≡◌, refl, sym, ap, ◌∙◌, arith, Bool-cases, true, inl, inr, Option, none, some, List, [],
  ◌∷◌, any, Fallible, ok, ok-injective, >>=-eq-ok, subst,
}
use golang_microservices_eco.Platform.Messaging.{Envelope, EnvelopeError}
use golang_microservices_eco.Ordering.Domain.Values.{Customer, Product}
use golang_microservices_eco.Ordering.Domain.Order.{Order, Event}
use golang_microservices_eco.Ordering.Tables.{Tables, find}
use golang_microservices_eco.Ordering.Tables.Find.{find-merge, find-merge-other}
use golang_microservices_eco.Ordering.Repository.{
  Server, record_customer, record_product, save_customer, insert_product, add_product_if_unknown,
  add_products, place_order, place,
}
use golang_microservices_eco.Ordering.Repository.Transaction.{execute-ok, in_tx-invariant}
use golang_microservices_eco.Ordering.Repository.Saved.Complete.{save_order-IsSaved}

module _ {Amount : Type 0} (server : Server Amount) where
  insert_product-known :
      (product known : Product Amount) (id : ℕ) (price : Option Amount) (db after : Tables Amount)
      → find (λ p. p.id) id db.products ≡ some known
      → insert_product product db price ≡ ok after
      → find (λ p. p.id) id after.products ≡ some known
  unfolding insert_product
  insert_product-known product known id none db after k h = cc
  insert_product-known product known id (some price) db after k h =
      let new = record product { price = price } in
      let same : (row : Product Amount) → (row.id == product.id) ≡ true → row.id ≡ product.id =
        λ row e. ground arith in
      subst (λ t. find (λ p. p.id) id t.products ≡ some known) (ok-injective h)
        (elim (Bool-cases (product.id == id)) [
          | inr other ↦ find-merge-other (λ p. p.id) (λ p. p) new id db.products same other ∙ k
          | inl here ↦
              let e : product.id ≡ id = ground arith in
              let there : find (λ p. p.id) product.id db.products ≡ some known = rw e k in
              rw (← e) (find-merge (λ p. p.id) (λ p. p) new db.products same ∙ rw there refl)
        ])

  add_products-known :
      (products : List (Product Amount)) (seen : List ℕ) (known : Product Amount) (id : ℕ)
      (db after : Tables Amount)
      → find (λ p. p.id) id db.products ≡ some known
      → add_products server seen products db ≡ ok after
      → find (λ p. p.id) id after.products ≡ some known
  unfolding add_products add_product_if_unknown
  add_products-known [] seen known id db after k h =
      subst (λ t. find (λ p. p.id) id t.products ≡ some known) (ok-injective h) k
  add_products-known (product ∷ products) seen known id db after k h =
      elim (Bool-cases (any (λ id. id == product.id) seen)) [
        | inl again ↦ add_products-known products seen known id db after k (rw again at h)
        | inr first ↦
            let (db', added, rest) =
              >>=-eq-ok (add_product_if_unknown server product db) _ (rw first at h) in
            add_products-known products (product.id ∷ seen) known id db' after
              (insert_product-known product known id (server.column product.price) db db' k
                (execute-ok server (record_product product) _ db' added))
              rest
      ]

  module _ (map_event : Order Amount → ℕ → Event → Fallible EnvelopeError (Option Envelope)) where
    place_order-known :
        (now : ℕ) (order : Order Amount) (customer : Customer) (products : List (Product Amount))
        (known : Product Amount) (id : ℕ) (db after : Tables Amount)
        → find (λ p. p.id) id db.products ≡ some known
        → place_order server map_event now order customer products db ≡ ok after
        → find (λ p. p.id) id after.products ≡ some known
    unfolding place_order save_customer
    place_order-known now order customer products known id db after k h =
        let (t, is_t, rest) = >>=-eq-ok (save_customer server customer db) _ h in
        let (stocked, is_stocked, saved) = >>=-eq-ok (add_products server [] products t) _ rest in
        let e = ok-injective (execute-ok server (record_customer customer) _ t is_t) in
        let s = save_order-IsSaved server map_event now order stocked after saved in
        ap (find (λ p. p.id) id) s.products
        ∙ add_products-known products [] known id t stocked
            (ap (λ t. find (λ p. p.id) id t.products) (sym e) ∙ k) is_stocked

    -- Whatever a checkout says of a product and whichever statements fail, a product that the
    -- service knows keeps the name and the price that it has.
    pub place-known :
        (now : ℕ) (order : Order Amount) (customer : Customer) (products : List (Product Amount))
        (db : Tables Amount) (id : ℕ) (known : Product Amount)
        → find (λ p. p.id) id db.products ≡ some known
        → find (λ p. p.id) id (place server map_event now order customer products db).2.products
          ≡ some known
    unfolding place
    place-known now order customer products db id known k =
        in_tx-invariant server (λ t. find (λ p. p.id) id t.products ≡ some known)
          (place_order server map_event now order customer products) db k
          (λ after. place_order-known now order customer products known id db after k)
