-- ===== src/Ordering/Domain/Order/Compaction.antt =====
-- internal/ordering/domain/order.go: the in-place loop of Remove.
use golang_microservices_eco.Prelude.{
  ℕ, suc, ◌≡◌, refl, ap, ◌∙◌, Bool, true, false, List, [], ◌∷◌, ◌++◌, some, inl, inr, arith, keep,
  negate, ◌==◌, length, take, get_elem?, set, get_elem?-append, set-append, take-length_append,
  length-append, append-nil, append_assoc, Bool-cases,
}
use golang_microservices_eco.Ordering.Domain.Order.{OrderItem, Order, compact, remove}

-- A write of x behind the kept elements, where x also stands at the read position.
set-stale {ℓ} :
    {A : Type ℓ} (kept stale : List A) (x : A) (rest : List A)
    → (stale' : List A) × (set ((kept ++ stale) ++ x ∷ rest) (length kept) x
        ≡ ((kept ++ x ∷ []) ++ stale') ++ rest)
      × (length stale' ≡ length stale)
set-stale kept [] x rest = ([], rw (append-nil, append-nil, append_assoc, set-append) refl, refl)
set-stale kept (y ∷ ys) x rest = (
  ys ++ x ∷ [],
  rw (append_assoc) (rw set-append (simp append_assoc)),
  omega (arith, length-append ys (x ∷ [])),
)

module _ {Amount : Type 0} (product_id : ℕ) where
  abbrev pub is_other : OrderItem Amount → Bool
  is_other item = negate (item.product_id == product_id)

  compact_drop :
      (n i k : ℕ) (backing : List (OrderItem Amount)) (x : OrderItem Amount)
      → get_elem? backing i ≡ some x
      → (x.product_id == product_id) ≡ true
      → compact product_id (suc n) i k backing ≡ compact product_id n (suc i) k backing
  unfolding compact
  compact_drop n i k backing x read same = rw (read, compact) (rw same)

  compact_keep :
      (n i k : ℕ) (backing : List (OrderItem Amount)) (x : OrderItem Amount)
      → get_elem? backing i ≡ some x
      → (x.product_id == product_id) ≡ false
      → compact product_id (suc n) i k backing
        ≡ compact product_id n (suc i) (suc k) (set backing k x)
  unfolding compact
  compact_keep n i k backing x read differs = rw (read, compact) (rw differs)

  abbrev kept_by : ℕ × List (OrderItem Amount) → List (OrderItem Amount)
  kept_by (k, backing) = take k backing

  -- The loop on a backing array of the kept lines, then stale ones up to the read position, then
  -- the lines to come.
  compact_lem :
      (rest kept stale : List (OrderItem Amount)) (i k : ℕ) (backing : List (OrderItem Amount))
      → i ≡ length (kept ++ stale)
      → k ≡ length kept
      → backing ≡ (kept ++ stale) ++ rest
      → kept_by (compact product_id (length rest) i k backing) ≡ kept ++ keep is_other rest
  compact_lem [] kept stale i k backing hi hk hb =
      unfold compact in rw (hb, hk, append-nil, append-nil) (take-length_append kept stale)
  compact_lem (x ∷ rest) kept stale i k backing hi hk hb =
      let read : get_elem? backing i ≡ some x =
        rw (hb, hi) (get_elem?-append (kept ++ stale) x rest) in
      let (stale', written, same_length) = set-stale kept stale x rest in
      elim (Bool-cases (x.product_id == product_id)) [
        | inl same ↦ rw (compact_drop (length rest) i k backing x read same) (
            rw same (
              compact_lem rest kept (stale ++ x ∷ []) (suc i) k backing
                (omega (
                  arith,
                  length-append (kept ++ stale) (x ∷ []),
                  ap length (append_assoc kept stale (x ∷ [])),
                ))
                hk (rw hb (simp append_assoc))))
        | inr differs ↦ rw (compact_keep (length rest) i k backing x read differs) (
            rw differs (
              compact_lem rest (kept ++ x ∷ []) stale' (suc i) (suc k) (set backing k x)
                (omega (
                  arith,
                  length-append kept stale,
                  length-append (kept ++ x ∷ []) stale',
                  length-append kept (x ∷ []),
                ))
                (omega (arith, length-append kept (x ∷ []))) (rw (hb, hk) written)
              ∙ append_assoc kept (x ∷ []) (keep is_other rest)))
      ]

  -- Remove, which compacts the lines in their own backing array, leaves exactly the lines of the
  -- other products, in their order, and the rest of the order as it was.
  pub remove_lem :
      (o : Order Amount) → remove product_id o ≡ record o { items = keep is_other o.items }
  unfolding remove
  remove_lem o =
      ap (λ items. record o { items = items })
        (compact_lem o.items [] [] 0 0 o.items refl refl refl)
