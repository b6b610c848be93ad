-- ===== src/Ordering/Outbox/Reader/Sorted.antt =====
-- Rows in the order of their positions, and where such a list splits.
use golang_microservices_eco.Prelude.{
  ◌≡◌, refl, sym, ap, ◌∙◌, List, [], ◌∷◌, ◌++◌, false, inl, inr, arith, append-nil, Bool,
  Bool-cases, All, All-map, All-left, keep, keep_none, keep-All, keep_congr, keep-append, negate,
}
use golang_microservices_eco.Ordering.Outbox.Lsn.{
  Lsn, before, compare_refl, not_before_trans, before_not_before, not_same-before,
}
use golang_microservices_eco.Ordering.Outbox.Reader.{ChangeRow, last_lsn, is_not_at}

abbrev pub IsSorted : List ChangeRow → Type 0
IsSorted [] = Unit
IsSorted (x ∷ xs) = All (λ y. before y.lsn x.lsn ≡ false) xs × IsSorted xs

abbrev pub is_before : Lsn → ChangeRow → Bool
is_before v r = before r.lsn v

abbrev pub is_from : Lsn → ChangeRow → Bool
is_from v r = negate (before r.lsn v)

abbrev pub is_upto : Lsn → ChangeRow → Bool
is_upto v r = negate (before v r.lsn)

abbrev pub is_after : Lsn → ChangeRow → Bool
is_after v r = negate (is_upto v r)

-- A sorted list splits at a test that, once failed, is failed by all that follows.
split_sorted :
    (p : ChangeRow → Bool) (rows : List ChangeRow)
    → ((r s : ChangeRow) → before s.lsn r.lsn ≡ false → p r ≡ false → p s ≡ false)
    → IsSorted rows
    → keep p rows ++ keep (λ r. negate (p r)) rows ≡ rows
split_sorted p [] falls s = refl
split_sorted p (x ∷ rows) falls s = elim (Bool-cases (p x)) [
  | inl passes ↦ rw passes (ap (λ l. x ∷ l) (split_sorted p rows falls s.1))
  | inr fails ↦
      let later : All (λ y. p y ≡ false) rows = All-map _ _ rows (λ y h. falls x y h fails) s.0 in
      rw (fails, keep_none p rows later)
        (ap (λ l. x ∷ l)
          (keep-All (λ r. negate (p r)) rows (All-map _ _ rows (λ y h. rw h refl) later)))
]

pub split_at :
    (v : Lsn) (rows : List ChangeRow)
    → IsSorted rows
    → keep (is_before v) rows ++ keep (is_from v) rows ≡ rows
split_at v rows s =
    split_sorted (is_before v) rows (λ x y h k. not_before_trans v x.lsn y.lsn k h) s

pub split_after :
    (v : Lsn) (rows : List ChangeRow)
    → IsSorted rows
    → keep (is_upto v) rows ++ keep (is_after v) rows ≡ rows
split_after v rows s =
    split_sorted (is_upto v) rows (λ x y h k. ground (arith, before_not_before v x.lsn y.lsn)) s

pub IsSorted-left : (xs ys : List ChangeRow) → IsSorted (xs ++ ys) → IsSorted xs
IsSorted-left [] ys s = tt
IsSorted-left (x ∷ xs) ys s = (All-left _ xs ys s.0, IsSorted-left xs ys s.1)

-- The last row is after none, and none that follows is before it.
pub last_lsn-latest :
    (rows : List ChangeRow) → IsSorted rows → All (λ r. before (last_lsn rows) r.lsn ≡ false) rows
unfolding last_lsn
last_lsn-latest [] s = tt
last_lsn-latest (x ∷ []) s = (rw (compare_refl x.lsn) refl, tt)
last_lsn-latest (x ∷ y ∷ rows) s =
    let later = last_lsn-latest (y ∷ rows) s.1 in
    (not_before_trans x.lsn y.lsn (last_lsn (y ∷ rows)) s.0.0 later.0, later)

last_lsn-before :
    (x : ChangeRow) (xs ys : List ChangeRow)
    → IsSorted ((x ∷ xs) ++ ys)
    → All (λ r. before r.lsn (last_lsn (x ∷ xs)) ≡ false) ys
unfolding last_lsn
last_lsn-before x [] ys s = s.0
last_lsn-before x (y ∷ xs) ys s = last_lsn-before y xs ys s.1

-- Dropping the last transaction from a front part of a sorted list leaves what is before it.
pub keep-is_not_at :
    (x : ChangeRow) (xs ys : List ChangeRow)
    → IsSorted ((x ∷ xs) ++ ys)
    → keep (is_not_at (last_lsn (x ∷ xs))) (x ∷ xs)
      ≡ keep (is_before (last_lsn (x ∷ xs))) ((x ∷ xs) ++ ys)
keep-is_not_at x xs ys s =
    let v = last_lsn (x ∷ xs) in
    let front : IsSorted (x ∷ xs) = IsSorted-left (x ∷ xs) ys s in
    keep_congr (is_not_at v) (is_before v) (x ∷ xs)
      (All-map _ _ (x ∷ xs) (λ r h. not_same-before v r.lsn h) (last_lsn-latest (x ∷ xs) front))
    ∙ (sym (append-nil (keep (is_before v) (x ∷ xs)))
        ∙ (ap (λ l. keep (is_before v) (x ∷ xs) ++ l)
              (sym (keep_none (is_before v) ys (last_lsn-before x xs ys s)))
            ∙ sym (keep-append (is_before v) (x ∷ xs) ys)))
