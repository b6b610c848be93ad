-- ===== src/Ordering/Tables/Sort.antt =====
-- internal/ordering/mssql: the rows that an ORDER BY returns.
use mathlib.Core.List.{Perm}
use mathlib.Core.List.Perm
use golang_microservices_eco.Prelude.{Bool, Bool-cases, inl, inr, List, [], ◌∷◌, All}
use golang_microservices_eco.Ordering.Tables.{insert, sort}

module _ {A : Type 0} (before : A → A → Bool) where
  insert-Perm : (new : A) (rows : List A) → Perm (insert before new rows) (new ∷ rows)
  unfolding insert
  insert-Perm new [] = Perm.refl (new ∷ [])
  insert-Perm new (row ∷ rows) = elim (Bool-cases (before row new)) [
    | inl earlier ↦
        rw earlier (Perm.trans (Perm.cons row (insert-Perm new rows)) (Perm.swap new row rows))
    | inr later ↦ rw later (Perm.refl (new ∷ row ∷ rows))
  ]

  pub sort-Perm : (rows : List A) → Perm (sort before rows) rows
  unfolding sort
  sort-Perm [] = Perm.refl []
  sort-Perm (row ∷ rows) =
      Perm.trans (insert-Perm row (sort before rows)) (Perm.cons row (sort-Perm rows))

  insert-All {κ} :
      (P : A → Type κ) (new : A) (rows : List A)
      → P new
      → All P rows
      → All P (insert before new rows)
  unfolding insert
  insert-All P new [] h all = (h, tt)
  insert-All P new (row ∷ rows) h all = elim (Bool-cases (before row new)) [
    | inl earlier ↦ rw earlier (all.0, insert-All P new rows h all.1)
    | inr later ↦ rw later (h, all)
  ]

  pub sort-All {κ} : (P : A → Type κ) (rows : List A) → All P rows → All P (sort before rows)
  unfolding sort
  sort-All P [] all = tt
  sort-All P (row ∷ rows) all = insert-All P row (sort before rows) all.0 (sort-All P rows all.1)
