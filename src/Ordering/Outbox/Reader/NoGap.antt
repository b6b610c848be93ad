-- ===== src/Ordering/Outbox/Reader/NoGap.antt =====
-- internal/ordering/outbox/reader.go: Read on a server that behaves as documented.
use golang_microservices_eco.Prelude.{
  ℕ, ◌≡◌, refl, sym, ap, ◌∙◌, List, [], ◌∷◌, map, true, false, inl, inr, arith, Bool, Bool-cases,
  All, All-of, All-map, keep, keep_none, keep_congr, negate, ◌&&◌, if◌then◌else◌, subst,
}
use golang_microservices_eco.Ordering.Outbox.Lsn.{
  Lsn, is_zero, compare, before, is_gt, compare_swap_gt, before_not_before,
}
use golang_microservices_eco.Ordering.Outbox.Errors.{ok, >>=-eq-ok, ok-injective}
use golang_microservices_eco.Ordering.Outbox.Reader.{
  Group, ChangeRow, Change, Server, Faults, is_insert, select, next_lsn, start_of, read_range, read,
}
use golang_microservices_eco.Ordering.Outbox.Reader.Sorted.{IsSorted, IsSorted-left}
use golang_microservices_eco.Ordering.Outbox.Reader.Grouping.{
  rows_of, rows_of-group_by_lsn, IsStrict, group_by_lsn-IsStrict,
}
use golang_microservices_eco.Ordering.Outbox.Reader.Transactions.{IsCut, read_page-IsCut}

-- SQL Server's documented behaviour: the change table is in order of its positions, all of which
-- lie between the minimum and the maximum, and fn_cdc_increment_lsn gives the position that follows, before which lie
-- the changes that are not after the given one.
pub record IsDocumented (server : Server) : Type 0 where
  pub ordered : IsSorted (map (λ c. c.row) server.changes)
  pub retained : All (λ c. before c.row.lsn server.min_lsn ≡ false) server.changes
  pub captured : All (λ c. before server.max_lsn c.row.lsn ≡ false) server.changes
  pub next :
      (a : Lsn)
      → All
          (λ c. before c.row.lsn (server.increment_lsn a) ≡ negate (before a c.row.lsn))
          server.changes

-- The captured inserts behind the checkpoint, or all of them where there is none.
abbrev pub unread : Server → Lsn → List ChangeRow
unread server after =
    map (λ c. c.row)
      (keep (λ c. is_insert c && (if is_zero after then true else before after c.row.lsn))
        server.changes)

All-map-keep :
    (P : ChangeRow → Type 0) (p : Change → Bool) (cs : List Change)
    → All P (map (λ c. c.row) cs)
    → All P (map (λ c. c.row) (keep p cs))
All-map-keep P p [] h = tt
All-map-keep P p (c ∷ cs) h = ground (arith, All-map-keep P p cs h.1)

IsSorted-keep :
    (p : Change → Bool) (cs : List Change)
    → IsSorted (map (λ c. c.row) cs)
    → IsSorted (map (λ c. c.row) (keep p cs))
IsSorted-keep p [] s = tt
IsSorted-keep p (c ∷ cs) s = elim (Bool-cases (p c)) [
  | inl passes ↦ rw passes (All-map-keep _ p cs s.0, IsSorted-keep p cs s.1)
  | inr fails ↦ rw fails (IsSorted-keep p cs s.1)
]

module _ (server : Server) (after : Lsn) (documented : IsDocumented server) where
  All-both :
      (P Q : Change → Type 0) (cs : List Change) → All P cs → All Q cs → All (λ c. P c × Q c) cs
  All-both P Q [] h k = tt
  All-both P Q (c ∷ cs) h k = ((h.0, k.0), All-both P Q cs h.1 k.1)

  -- The range that is read is what is unread.
  select-unread : select server (start_of server after) server.max_lsn ≡ unread server after
  unfolding select next_lsn
  select-unread = ap (map (λ c. c.row)) (
      keep_congr _ _ server.changes (
        All-map _ _ server.changes (λ c h. ground (arith, h.0, h.1.0, h.1.1))
          (All-both _ _ server.changes (documented.next after)
            (All-both _ _ server.changes documented.retained documented.captured))))

  select-IsSorted : IsSorted (select server (start_of server after) server.max_lsn)
  unfolding select
  select-IsSorted = IsSorted-keep _ server.changes documented.ordered

  -- Nothing is unread where the range is empty.
  select-empty :
      is_gt (compare (start_of server after) server.max_lsn) ≡ true
      → select server (start_of server after) server.max_lsn ≡ []
  unfolding select
  select-empty h = ap (map (λ c. c.row)) (
      keep_none _ server.changes (
        All-of _ server.changes (λ c. ground (
          arith,
          compare_swap_gt (start_of server after) server.max_lsn,
          before_not_before server.max_lsn (start_of server after) c.row.lsn,
        ))))

  module _ (faults : Faults) (batch_size : ℕ) where
    -- A read that succeeds has passed its checks.
    read-eq_ok :
        (groups : List Group)
        → read server faults after batch_size ≡ ok groups
        → read_range server faults (start_of server after) batch_size ≡ ok groups
    unfolding read
    read-eq_ok groups h = ground arith

    read_range-IsCut :
        (groups : List Group)
        → read_range server faults (start_of server after) batch_size ≡ ok groups
        → IsCut (select server (start_of server after) server.max_lsn) (rows_of groups)
    unfolding read_range
    read_range-IsCut groups h =
        elim (Bool-cases (is_gt (compare (start_of server after) server.max_lsn))) [
          | inl past ↦ subst (IsCut _) (ap rows_of (ok-injective (rw past at h))) (record {
            rest = select server (start_of server after) server.max_lsn;
            splits = refl;
            whole = tt;
            progress = λ none_read. select-empty past;
          })
          | inr inside ↦
              let (rows, page, grouped) = >>=-eq-ok _ _ (rw inside at h) in
              subst (IsCut _) (sym (rows_of-group_by_lsn rows) ∙ ap rows_of (ok-injective grouped))
                (read_page-IsCut server faults (start_of server after) batch_size select-IsSorted
                  rows page)
        ]

    read_range-IsStrict :
        (groups : List Group)
        → read_range server faults (start_of server after) batch_size ≡ ok groups
        → IsStrict groups
    unfolding read_range
    read_range-IsStrict groups h =
        elim (Bool-cases (is_gt (compare (start_of server after) server.max_lsn))) [
          | inl past ↦ subst IsStrict (ok-injective (rw past at h)) tt
          | inr inside ↦
              let (rows, page, grouped) = >>=-eq-ok _ _ (rw inside at h) in
              let cut =
                read_page-IsCut server faults (start_of server after) batch_size select-IsSorted
                  rows page in
              subst IsStrict (ok-injective grouped) (
                group_by_lsn-IsStrict rows
                  (IsSorted-left rows cut.rest (subst IsSorted cut.splits select-IsSorted)))
        ]

-- A read that succeeds, on a server that behaves as documented and whichever queries fail, returns
-- a front part of what is unread behind the checkpoint: what it leaves out is in later transactions
-- than all it returns, so no transaction is split and none is skipped; and it returns nothing only
-- if nothing is unread, also where one transaction is larger than the batch.
pub read-IsCut :
    (server : Server) (after : Lsn)
    → IsDocumented server
    → (faults : Faults) (batch_size : ℕ) (groups : List Group)
    → read server faults after batch_size ≡ ok groups
    → IsCut (unread server after) (rows_of groups)
read-IsCut server after documented faults batch_size groups h =
    subst (λ l. IsCut l (rows_of groups)) (select-unread server after documented)
      (read_range-IsCut server after documented faults batch_size groups
        (read-eq_ok server after documented faults batch_size groups h))

pub read-IsStrict :
    (server : Server) (after : Lsn)
    → IsDocumented server
    → (faults : Faults) (batch_size : ℕ) (groups : List Group)
    → read server faults after batch_size ≡ ok groups
    → IsStrict groups
read-IsStrict server after documented faults batch_size groups h =
    read_range-IsStrict server after documented faults batch_size groups
      (read-eq_ok server after documented faults batch_size groups h)
