-- ===== src/Ordering/Tables/Find.antt =====
-- internal/ordering/mssql: which row a SELECT by the key finds.
use golang_microservices_eco.Prelude.{
  ℕ, ◌==◌, ◌≡◌, refl, arith, Bool-cases, true, false, inl, inr, List, [], ◌∷◌, keep, negate,
  if◌then◌else◌, Option, none, some, ap,
}
use golang_microservices_eco.Ordering.Tables.{has, find, merge}

module _ {A : Type 0} (id : A → ℕ) where
  -- What a MERGE makes of the row that it found.
  abbrev pub merged : (A → A) → A → Option A → A
  merged update new none = new
  merged update new (some row) = update row

  pub find-merge :
      (update : A → A) (new : A) (rows : List A)
      → ((row : A) → (id row == id new) ≡ true → id (update row) ≡ id new)
      → find id (id new) (merge id update new rows)
        ≡ some (merged update new (find id (id new) rows))
  unfolding find merge
  find-merge update new [] same = ground arith
  find-merge update new (row ∷ rows) same = elim (Bool-cases (id row == id new)) [
    | inl here ↦
        let e : (id (update row) == id new) ≡ true = rw (same row here) (ground arith) in
        rw here (rw e refl)
    | inr other ↦ rw other (rw other (find-merge update new rows same))
  ]

  pub find-merge-other :
      (update : A → A) (new : A) (key : ℕ) (rows : List A)
      → ((row : A) → (id row == id new) ≡ true → id (update row) ≡ id new)
      → (id new == key) ≡ false
      → find id key (merge id update new rows) ≡ find id key rows
  unfolding find merge
  find-merge-other update new key [] same h = rw h refl
  find-merge-other update new key (row ∷ rows) same h = elim (Bool-cases (id row == id new)) [
    | inl here ↦
        let e : (id (update row) == key) ≡ false = rw (same row here) h in
        let f : (id row == key) ≡ false = ground arith in rw here (rw (e, f) refl)
    | inr other ↦ rw other (
        ap (λ o. if id row == key then some row else o)
          (find-merge-other update new key rows same h))
  ]

  pub find-removed :
      (key : ℕ) (rows : List A) → find id key (keep (λ r. negate (id r == key)) rows) ≡ none
  unfolding find
  find-removed key [] = refl
  find-removed key (row ∷ rows) = ground (arith, find-removed key rows)

  pub find-kept :
      (key other : ℕ) (rows : List A)
      → (other == key) ≡ false
      → find id other (keep (λ r. negate (id r == key)) rows) ≡ find id other rows
  unfolding find
  find-kept key other [] h = refl
  find-kept key other (row ∷ rows) h = ground (arith, find-kept key other rows h)

  -- The key of a row that is found, and whether there is one.
  pub find-has : (key : ℕ) (rows : List A) → has id key rows ≡ false → find id key rows ≡ none
  unfolding find has
  find-has key [] h = refl
  find-has key (row ∷ rows) h = ground (arith, find-has key rows)
