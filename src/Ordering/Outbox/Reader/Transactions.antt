-- ===== src/Ordering/Outbox/Reader/Transactions.antt =====
-- internal/ordering/outbox/reader.go: where a page is cut.
use golang_microservices_eco.Prelude.{
  ℕ, ◌+◌, ◌<◌, ◌≡◌, refl, sym, ap, ◌∙◌, List, [], ◌∷◌, ◌++◌, map, true, false, inl, inr, arith,
  append-nil, Bool, Bool-cases, All, All-of, All-map, All-left, All-keep_self, ◌≢◌, keep, take,
  drop, take-append-drop, take_short, length, ltb, if◌then◌else◌, subst, ◌&&◌,
}
use golang_microservices_eco.Ordering.Outbox.Lsn.{
  Lsn, compare, before, not_before_trans, before_not_before, not_after_before, lt,
}
use golang_microservices_eco.Ordering.Outbox.Errors.{Error, ok, err, database, ok-injective, err≢ok}
use golang_microservices_eco.Ordering.Outbox.Reader.{
  ChangeRow, Change, Server, Faults, is_insert, within, select, changes, last_lsn, drop_partial,
  read_page, is_not_at,
}
use golang_microservices_eco.Ordering.Outbox.Reader.Sorted.{
  IsSorted, is_before, is_from, is_upto, is_after, split_at, split_after, keep-is_not_at,
  last_lsn-latest, IsSorted-left,
}

abbrev select_from : Lsn → Lsn → List Change → List ChangeRow
select_from from to cs = map (λ c. c.row) (keep (λ c. is_insert c && within from to c) cs)

-- The rows of one transaction, where the selection has nothing older.
select_from-transaction :
    (from to v : Lsn) (cs : List Change)
    → before v from ≡ false
    → before to v ≡ false
    → keep (is_before v) (select_from from to cs) ≡ []
    → select_from v v cs ≡ keep (is_upto v) (select_from from to cs)
select_from-transaction from to v [] h k none_before = refl
select_from-transaction from to v (c ∷ cs) h k none_before = ground (
  arith,
  select_from-transaction from to v cs h k,
  not_before_trans from v c.row.lsn,
  not_before_trans c.row.lsn v to,
)

abbrev Inside : Lsn → Lsn → Lsn → Type 0
Inside from to l = (before l from ≡ false) × (before to l ≡ false)

select_from-Inside :
    (from to : Lsn) (cs : List Change) → All (λ r. Inside from to r.lsn) (select_from from to cs)
select_from-Inside from to [] = tt
select_from-Inside from to (c ∷ cs) = ground (arith, select_from-Inside from to cs)

select-Inside :
    (server : Server) (from to : Lsn) → All (λ r. Inside from to r.lsn) (select server from to)
unfolding select
select-Inside server from to = select_from-Inside from to server.changes

All-last_lsn :
    (P : Lsn → Type 0) (x : ChangeRow) (xs : List ChangeRow)
    → All (λ r. P r.lsn) (x ∷ xs)
    → P (last_lsn (x ∷ xs))
unfolding last_lsn
All-last_lsn P x [] h = h.0
All-last_lsn P x (y ∷ xs) h = All-last_lsn P y xs h.1

-- Every row of the one list is in an earlier transaction than every row of the other.
abbrev pub Earlier : List ChangeRow → List ChangeRow → Type 0
Earlier rows rest = All (λ r. All (λ s. compare r.lsn s.lsn ≡ lt) rest) rows

-- The page is a front part of what is eligible, cut between two transactions, and it has rows if
-- there are any.
pub record IsCut (eligible rows : List ChangeRow) : Type 0 where
  pub rest : List ChangeRow
  pub splits : eligible ≡ rows ++ rest
  pub whole : Earlier rows rest
  pub progress : rows ≡ [] → eligible ≡ []

Earlier-intro :
    (p q : ChangeRow → Bool) (xs ys : List ChangeRow)
    → ((r s : ChangeRow) → p r ≡ true → q s ≡ true → compare r.lsn s.lsn ≡ lt)
    → Earlier (keep p xs) (keep q ys)
Earlier-intro p q xs ys f =
    All-map _ _ (keep p xs)
      (λ r hr. All-map _ _ (keep q ys) (λ s hs. f r s hr hs) (All-keep_self q ys))
      (All-keep_self p xs)

IsCut-before :
    (v : Lsn) (eligible : List ChangeRow)
    → IsSorted eligible
    → (keep (is_before v) eligible ≢ [])
    → IsCut eligible (keep (is_before v) eligible)
IsCut-before v eligible s some_row = record {
  rest = keep (is_from v) eligible;
  splits = sym (split_at v eligible s);
  whole =
      Earlier-intro (is_before v) (is_from v) eligible eligible
        (λ r t h k. before_not_before r.lsn v t.lsn (ground arith) (ground arith));
  progress = λ h. absurd (some_row h);
}

IsCut-upto :
    (v : Lsn) (x : ChangeRow) (xs : List ChangeRow)
    → IsSorted (x ∷ xs)
    → before v x.lsn ≡ false
    → IsCut (x ∷ xs) (keep (is_upto v) (x ∷ xs))
IsCut-upto v x xs s head_in = record {
  rest = keep (is_after v) (x ∷ xs);
  splits = sym (split_after v (x ∷ xs) s);
  whole =
      Earlier-intro (is_upto v) (is_after v) (x ∷ xs) (x ∷ xs)
        (λ r t h k. not_after_before r.lsn v t.lsn (ground arith) (ground arith));
  progress = λ h. ground arith;
}

-- The end of a page: its last transaction, which the limit may have cut.
drop_partial-IsCut :
    (server : Server) (fault : Bool) (from v : Lsn) (kept rows : List ChangeRow) (x : ChangeRow)
    (xs : List ChangeRow)
    → select server from server.max_lsn ≡ x ∷ xs
    → IsSorted (x ∷ xs)
    → before v x.lsn ≡ false
    → before v from ≡ false
    → before server.max_lsn v ≡ false
    → kept ≡ keep (is_before v) (x ∷ xs)
    → drop_partial server fault v kept ≡ ok rows
    → IsCut (x ∷ xs) rows
drop_partial-IsCut server fault from v (row ∷ kept) rows x xs e s hx hf ht hk h =
    subst (IsCut (x ∷ xs)) (sym hk ∙ ok-injective {Error = Error} (unfold drop_partial in h))
      (IsCut-before v (x ∷ xs) s (λ n. cc))
drop_partial-IsCut server true from v [] rows x xs e s hx hf ht hk h =
    absurd (unfold drop_partial changes in (cc))
drop_partial-IsCut server false from v [] rows x xs e s hx hf ht hk h =
    let all : select server v v ≡ keep (is_upto v) (x ∷ xs) =
      unfold select in
      select_from-transaction from server.max_lsn v server.changes hf ht
        (ap (keep (is_before v)) e ∙ sym hk)
      ∙ ap (keep (is_upto v)) e in
    subst (IsCut (x ∷ xs))
      (sym all ∙ ok-injective {Error = Error} (unfold drop_partial changes in h))
      (IsCut-upto v x xs s hx)

changes-fault :
    (server : Server) (from to : Lsn) (n : ℕ) → changes server true from to n ≡ err database
unfolding changes
changes-fault server from to n = refl

changes-limit :
    (server : Server) (from to : Lsn) (n : ℕ)
    → changes server false from to (n + 1) ≡ ok (take (n + 1) (select server from to))
unfolding changes
changes-limit server from to n = ground arith

-- A page that the limit does not cut is all there is.
whole_page :
    (n : ℕ) (page eligible : List ChangeRow)
    → take n eligible ≡ page
    → length page < n
    → IsCut eligible page
whole_page n page eligible t short = record {
  rest = [];
  splits = sym (take_short n eligible (rw t short)) ∙ (t ∙ sym (append-nil page));
  whole = All-of _ page (λ r. tt);
  progress = λ none_left. sym (take_short n eligible (rw t short)) ∙ (t ∙ none_left);
}

module _ (server : Server) (faults : Faults) (from : Lsn) (batch_size : ℕ)
    (sorted : IsSorted (select server from server.max_lsn)) where
  -- What the page query returned, and what its limit cut off.
  page-IsCut :
      (page cut rows : List ChangeRow)
      → take (batch_size + 1) (select server from server.max_lsn) ≡ page
      → select server from server.max_lsn ≡ page ++ cut
      → (if ltb batch_size (length page)
          then drop_partial server faults.transaction
              (last_lsn page)
              (keep (is_not_at (last_lsn page)) page)
          else ok page)
        ≡ ok rows
      → IsCut (select server from server.max_lsn) rows
  page-IsCut [] cut rows t e h =
      let not_full : ltb batch_size 0 ≡ false = ground arith in
      subst (IsCut (select server from server.max_lsn)) (ok-injective (rw not_full at h))
        (whole_page (batch_size + 1) [] (select server from server.max_lsn) t (omega arith))
  page-IsCut (x ∷ xs) cut rows t e h = elim (Bool-cases (ltb batch_size (length (x ∷ xs)))) [
    | inl full ↦
        let v = last_lsn (x ∷ xs) in
        let s = subst IsSorted e sorted in
        let inside = All-last_lsn (Inside from server.max_lsn) x xs (
          All-left _ (x ∷ xs) cut (
            subst (All (λ r. Inside from server.max_lsn r.lsn)) e
              (select-Inside server from server.max_lsn))) in
        subst (λ l. IsCut l rows) (sym e)
          (drop_partial-IsCut server faults.transaction from v _ rows x (xs ++ cut) e s
            (last_lsn-latest (x ∷ xs) (IsSorted-left (x ∷ xs) cut s)).0 inside.0 inside.1
            (keep-is_not_at x xs cut s) (rw full at h))
    | inr short ↦
        subst (IsCut (select server from server.max_lsn)) (ok-injective (rw short at h)) (
          whole_page (batch_size + 1) (x ∷ xs) (select server from server.max_lsn) t (ground arith))
  ]

  pub read_page-IsCut :
      (rows : List ChangeRow)
      → read_page server faults from batch_size ≡ ok rows
      → IsCut (select server from server.max_lsn) rows
  unfolding read_page
  read_page-IsCut rows h = elim (Bool-cases faults.page) [
    | inl fault ↦
        err≢ok (rw (fault, changes-fault server from server.max_lsn (batch_size + 1)) at h)
    | inr fine ↦
        page-IsCut _ (drop (batch_size + 1) (select server from server.max_lsn)) rows refl
          (sym (take-append-drop (batch_size + 1) (select server from server.max_lsn)))
          (rw (fine, changes-limit server from server.max_lsn batch_size) at h)
  ]
