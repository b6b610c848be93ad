-- ===== src/Ordering/Repository/Transaction.antt =====
-- internal/ordering/mssql/repository.go: what a transaction of the repository can leave.
use golang_microservices_eco.Prelude.{◌≡◌, refl, Bool-cases, inl, inr, Option, none, some, ok, err}
use golang_microservices_eco.Ordering.Tables.{Tables}
use golang_microservices_eco.Ordering.Repository.{
  Error, database, Result, Server, Statement, commit, begin, execute, finish, in_tx,
}

module _ {Amount : Type 0} (server : Server Amount) where
  -- A statement that went through.
  pub execute-ok :
      {A : Type 0} (statement : Statement Amount) (result : Result A) (a : A)
      → execute server statement result ≡ ok a
      → result ≡ ok a
  execute-ok statement result a h = elim (Bool-cases (server.fails statement)) [
    | inl failed ↦ cc (rw failed at h)
    | inr works ↦ rw works at h
  ]

  -- How a transaction ended: nothing has changed, or its work is there, without an error unless
  -- the commit reported one.
  pub data Ended (run : Tables Amount → Result (Tables Amount)) (db : Tables Amount)
      : Option Error × Tables Amount → Type 0 where
    unchanged : (cause : Error) → Ended run db (some cause, db)
    committed : (after : Tables Amount) → run db ≡ ok after → Ended run db (none, after)
    unconfirmed : (after : Tables Amount) → run db ≡ ok after → Ended run db (some database, after)

  finish-Ended :
      (run : Tables Amount → Result (Tables Amount)) (db : Tables Amount)
      (r : Result (Tables Amount))
      → run db ≡ r
      → Ended run db (finish server db r)
  unfolding finish
  finish-Ended run db (err e) h = unchanged e
  finish-Ended run db (ok after) h = elim (Bool-cases (server.fails commit)) [
    | inr works ↦ rw works (committed after h)
    | inl failed ↦ elim (Bool-cases server.commit_kept) [
      | inl kept ↦ rw (failed, kept) (unconfirmed after h)
      | inr lost ↦ rw (failed, lost) (unchanged database)
    ]
  ]

  pub in_tx-Ended :
      (run : Tables Amount → Result (Tables Amount)) (db : Tables Amount)
      → Ended run db (in_tx server run db)
  unfolding in_tx
  in_tx-Ended run db = elim (Bool-cases (server.fails begin)) [
    | inl failed ↦ rw failed (unchanged database)
    | inr works ↦ rw works (finish-Ended run db (run db) refl)
  ]

  -- What holds before a transaction and of its work holds behind it.
  pub Ended-invariant :
      (P : Tables Amount → Type 0) (run : Tables Amount → Result (Tables Amount))
      (db : Tables Amount) (r : Option Error × Tables Amount)
      → Ended run db r
      → P db
      → ((after : Tables Amount) → run db ≡ ok after → P after)
      → P r.1
  Ended-invariant P run db _ (unchanged cause) before work = before
  Ended-invariant P run db _ (committed after h) before work = work after h
  Ended-invariant P run db _ (unconfirmed after h) before work = work after h

  pub in_tx-invariant :
      (P : Tables Amount → Type 0) (run : Tables Amount → Result (Tables Amount))
      (db : Tables Amount)
      → P db
      → ((after : Tables Amount) → run db ≡ ok after → P after)
      → P (in_tx server run db).1
  in_tx-invariant P run db = Ended-invariant P run db (in_tx server run db) (in_tx-Ended run db)
