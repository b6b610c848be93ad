-- ===== src/Ordering/Tables/Merge.antt =====
-- internal/ordering/mssql: rows by their keys, behind a MERGE, an INSERT and a DELETE.
use golang_microservices_eco.Prelude.{
  ℕ, ◌==◌, ◌≡◌, refl, arith, Bool, Bool-cases, true, false, List, [], ◌∷◌, ◌++◌, keep,
  if◌then◌else◌, All, inl, inr, ◌∙◌, negate,
}
use golang_microservices_eco.Ordering.Tables.{has, merge}

module _ {A : Type 0} (id : A → ℕ) where
  -- No two rows have one key.
  abbrev pub IsKeyed : List A → Type 0
  IsKeyed [] = Unit
  IsKeyed (row ∷ rows) = (has id (id row) rows ≡ false) × IsKeyed rows

  pub has-append :
      (key : ℕ) (rows : List A) (new : A)
      → has id key (rows ++ new ∷ []) ≡ (if has id key rows then true else id new == key)
  unfolding has
  has-append key [] new = ground arith
  has-append key (row ∷ rows) new = ground (arith, has-append key rows new)

  pub has-append-old :
      (key : ℕ) (rows : List A) (new : A)
      → has id key rows ≡ true
      → has id key (rows ++ new ∷ []) ≡ true
  has-append-old key rows new h = has-append key rows new ∙ rw h refl

  pub IsKeyed-append :
      (rows : List A) (new : A)
      → IsKeyed rows
      → has id (id new) rows ≡ false
      → IsKeyed (rows ++ new ∷ [])
  unfolding has
  IsKeyed-append [] new k h = (refl, tt)
  IsKeyed-append (row ∷ rows) new k h = (
    has-append (id row) rows new ∙ rw (k.0) (ground arith),
    IsKeyed-append rows new k.1 (ground arith),
  )

  pub has-keep :
      (key : ℕ) (p : A → Bool) (rows : List A)
      → has id key rows ≡ false
      → has id key (keep p rows) ≡ false
  unfolding has
  has-keep key p [] h = refl
  has-keep key p (row ∷ rows) h = ground (arith, has-keep key p rows)

  pub IsKeyed-keep : (p : A → Bool) (rows : List A) → IsKeyed rows → IsKeyed (keep p rows)
  IsKeyed-keep p [] k = tt
  IsKeyed-keep p (row ∷ rows) k = elim (Bool-cases (p row)) [
    | inl passes ↦ rw passes (has-keep (id row) p rows k.0, IsKeyed-keep p rows k.1)
    | inr fails ↦ rw fails (IsKeyed-keep p rows k.1)
  ]

  -- What a DELETE by the key leaves.
  pub has-removed :
      (key : ℕ) (rows : List A) → has id key (keep (λ r. negate (id r == key)) rows) ≡ false
  unfolding has
  has-removed key [] = refl
  has-removed key (row ∷ rows) = ground (arith, has-removed key rows)

  pub has-kept :
      (key other : ℕ) (rows : List A)
      → (other == key) ≡ false
      → has id other (keep (λ r. negate (id r == key)) rows) ≡ has id other rows
  unfolding has
  has-kept key other [] h = refl
  has-kept key other (row ∷ rows) h = ground (arith, has-kept key other rows h)

  module _ (update : A → A) (new : A) where
    pub merge-has :
        (rows : List A)
        → ((row : A) → (id row == id new) ≡ true → id (update row) ≡ id new)
        → has id (id new) (merge id update new rows) ≡ true
    unfolding has merge
    merge-has [] same = ground arith
    merge-has (row ∷ rows) same = ground (arith, merge-has rows same, same row)

    pub merge-has-other :
        (key : ℕ) (rows : List A)
        → ((row : A) → (id row == id new) ≡ true → id (update row) ≡ id new)
        → (id new == key) ≡ false
        → has id key (merge id update new rows) ≡ has id key rows
    unfolding has merge
    merge-has-other key [] same h = rw h refl
    merge-has-other key (row ∷ rows) same h =
        ground (arith, merge-has-other key rows same h, same row)

    pub merge-has-old :
        (key : ℕ) (rows : List A)
        → ((row : A) → (id row == id new) ≡ true → id (update row) ≡ id new)
        → has id key rows ≡ true
        → has id key (merge id update new rows) ≡ true
    merge-has-old key rows same h = elim (Bool-cases (id new == key)) [
      | inl here ↦ let e : id new ≡ key = ground arith in rw (← e) (merge-has rows same)
      | inr other ↦ merge-has-other key rows same other ∙ h
    ]

    pub merge-IsKeyed :
        (rows : List A)
        → ((row : A) → (id row == id new) ≡ true → id (update row) ≡ id new)
        → IsKeyed rows
        → IsKeyed (merge id update new rows)
    unfolding merge
    merge-IsKeyed [] same k = (unfold has in refl, tt)
    merge-IsKeyed (row ∷ rows) same k = elim (Bool-cases (id row == id new)) [
      | inl here ↦
          let e : id (update row) ≡ id row = same row here ∙ ground arith in
          rw here (rw e (k.0), k.1)
      | inr other ↦
          rw other
            (merge-has-other (id row) rows same (ground arith) ∙ k.0, merge-IsKeyed rows same k.1)
    ]

    -- What every row has, where the new row has it.
    pub merge-All {κ} :
        (P : A → Type κ) (rows : List A)
        → ((row : A) → (id row == id new) ≡ true → P (update row))
        → P new
        → All P rows
        → All P (merge id update new rows)
    unfolding merge
    merge-All P [] up h all = (h, tt)
    merge-All P (row ∷ rows) up h all = elim (Bool-cases (id row == id new)) [
      | inl here ↦ rw here (up row here, all.1)
      | inr other ↦ rw other (all.0, merge-All P rows up h all.1)
    ]
