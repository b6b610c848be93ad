-- ===== src/Ordering/Outbox/Reader/Grouping.antt =====
-- internal/ordering/outbox/reader.go: groupByLSN and the rows of its groups.
use golang_microservices_eco.Prelude.{
  ◌≡◌, refl, sym, ap, ◌∙◌, List, [], ◌∷◌, ◌++◌, false, inl, inr, arith, append_assoc, append-nil,
  Bool-cases, All, All-of, ◌<◌, length, length-append,
}
use golang_microservices_eco.Platform.Messaging.{Envelope}
use golang_microservices_eco.Ordering.Outbox.Lsn.{
  Lsn, compare, same, same-eq, before, not_same-before, before_not_before, lt,
}
use golang_microservices_eco.Ordering.Outbox.Reader.Sorted.{IsSorted}
use golang_microservices_eco.Ordering.Outbox.Reader.{
  Group, ChangeRow, push_row, group_from, group_by_lsn,
}

-- The rows of one group, and of all.
abbrev pub rows_of_group : Lsn → List Envelope → List ChangeRow
rows_of_group lsn [] = []
rows_of_group lsn (m ∷ ms) = record { lsn = lsn; message = m } ∷ rows_of_group lsn ms

abbrev pub rows_of : List Group → List ChangeRow
rows_of [] = []
rows_of (g ∷ gs) = rows_of_group g.lsn g.messages ++ rows_of gs

rows_of_group-append :
    (lsn : Lsn) (ms : List Envelope) (m : Envelope)
    → rows_of_group lsn (ms ++ m ∷ [])
      ≡ rows_of_group lsn ms ++ record { lsn = lsn; message = m } ∷ []
rows_of_group-append lsn [] m = refl
rows_of_group-append lsn (x ∷ ms) m =
    ap (λ l. record { lsn = lsn; message = x } ∷ l) (rows_of_group-append lsn ms m)

rows_of-push_row :
    (gs : List Group) (row : ChangeRow) → rows_of (push_row gs row) ≡ rows_of gs ++ row ∷ []
unfolding push_row
rows_of-push_row [] row = refl
rows_of-push_row (g ∷ []) row = elim (Bool-cases (same g.lsn row.lsn)) [
  | inl s ↦ rw (s, rows_of_group-append, append-nil, append-nil) (rw (same-eq g.lsn row.lsn s))
  | inr s ↦ rw s (
      rw (append-nil) (ap (λ l. l ++ row ∷ []) (sym (append-nil (rows_of_group g.lsn g.messages)))))
]
rows_of-push_row (g ∷ h ∷ gs) row =
    rw (rows_of-push_row (h ∷ gs) row)
      (sym (append_assoc (rows_of_group g.lsn g.messages) (rows_of (h ∷ gs)) (row ∷ [])))

rows_of-group_from :
    (gs : List Group) (rows : List ChangeRow) → rows_of (group_from gs rows) ≡ rows_of gs ++ rows
unfolding group_from
rows_of-group_from gs [] = rw append-nil
rows_of-group_from gs (row ∷ rows) =
    rows_of-group_from (push_row gs row) rows
    ∙ (rw (rows_of-push_row gs row) (append_assoc (rows_of gs) (row ∷ []) rows))

-- The groups hold exactly the rows, in their order.
pub rows_of-group_by_lsn : (rows : List ChangeRow) → rows_of (group_by_lsn rows) ≡ rows
unfolding group_by_lsn
rows_of-group_by_lsn rows = rows_of-group_from [] rows

-- Every group has a message, and is before the groups that follow it.
abbrev pub IsStrict : List Group → Type 0
IsStrict [] = Unit
IsStrict (g ∷ gs) = (0 < length g.messages) × All (λ h. compare g.lsn h.lsn ≡ lt) gs × IsStrict gs

All-push_row :
    (P : Lsn → Type 0) (gs : List Group) (row : ChangeRow)
    → All (λ g. P g.lsn) gs
    → P row.lsn
    → All (λ g. P g.lsn) (push_row gs row)
unfolding push_row
All-push_row P [] row h k = (k, tt)
All-push_row P (g ∷ []) row h k = ground arith
All-push_row P (g ∷ g' ∷ gs) row h k = (h.0, All-push_row P (g' ∷ gs) row h.1 k)

IsStrict-push_row :
    (gs : List Group) (row : ChangeRow)
    → IsStrict gs
    → All (λ g. before row.lsn g.lsn ≡ false) gs
    → IsStrict (push_row gs row)
unfolding push_row
IsStrict-push_row [] row s h = omega arith
IsStrict-push_row (g ∷ []) row s h =
    ground (arith, not_same-before row.lsn g.lsn, length-append g.messages (row.message ∷ []))
IsStrict-push_row (g ∷ g' ∷ gs) row s h = (
  s.0,
  All-push_row (λ l. compare g.lsn l ≡ lt) (g' ∷ gs) row s.1
      (before_not_before g.lsn g'.lsn row.lsn s.1.0 h.1.0),
  IsStrict-push_row (g' ∷ gs) row s.2 h.1,
)

IsStrict-group_from :
    (gs : List Group) (rows : List ChangeRow)
    → IsStrict gs
    → All (λ row. All (λ g. before row.lsn g.lsn ≡ false) gs) rows
    → IsSorted rows
    → IsStrict (group_from gs rows)
unfolding group_from
IsStrict-group_from gs [] s h sorted = s
IsStrict-group_from gs (row ∷ rows) s h sorted =
    IsStrict-group_from (push_row gs row) rows (IsStrict-push_row gs row s h.0)
      (All-later rows h.1 sorted.0) sorted.1
  where
    All-later :
        (rows : List ChangeRow)
        → All (λ later. All (λ g. before later.lsn g.lsn ≡ false) gs) rows
        → All (λ later. before later.lsn row.lsn ≡ false) rows
        → All (λ later. All (λ g. before later.lsn g.lsn ≡ false) (push_row gs row)) rows
    All-later [] h k = tt
    All-later (later ∷ rows) h k =
        (All-push_row (λ l. before later.lsn l ≡ false) gs row h.0 k.0, All-later rows h.1 k.1)

-- The groups of rows in order are one for each transaction, in order, and none is empty.
pub group_by_lsn-IsStrict : (rows : List ChangeRow) → IsSorted rows → IsStrict (group_by_lsn rows)
unfolding group_by_lsn
group_by_lsn-IsStrict rows sorted = IsStrict-group_from [] rows tt (All-of _ rows (λ r. tt)) sorted
