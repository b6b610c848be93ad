-- ===== src/Ordering/Tables.antt =====
-- The tables of internal/ordering/mssql/migrations that the repository writes, and what a statement
-- of the database does to one of them: MERGE by its key, and the tests of a foreign or primary key.
pub mod Merge
pub mod Find
pub mod Sort
use golang_microservices_eco.Prelude.{
  ℕ, ◌==◌, Bool, Option, none, some, List, [], ◌∷◌, any, if◌then◌else◌,
}
use golang_microservices_eco.Platform.Messaging.{Envelope}
use golang_microservices_eco.Ordering.Domain.Values.{Customer, Product}
use golang_microservices_eco.Ordering.Domain.Order.{OrderItem}
use golang_microservices_eco.Ordering.Rows.{OrderRow}

pub record Tables (Amount : Type 0) : Type 0 where
  pub customers : List Customer
  pub products : List (Product Amount)
  pub orders : List OrderRow
  pub order_items : List (OrderItem Amount)
  pub outbox_messages : List Envelope

module _ {A : Type 0} (id : A → ℕ) where
  -- A row has this key.
  unfoldable pub has : ℕ → List A → Bool
  has key rows = any (λ row. id row == key) rows

  -- MERGE on the key of a row: update the row that has it, or insert.
  unfoldable pub merge : (A → A) → A → List A → List A
  merge update new [] = new ∷ []
  merge update new (row ∷ rows) =
      let rest = merge update new rows in if id row == id new then update row ∷ rows else row ∷ rest

  -- The row with this key.
  unfoldable pub find : ℕ → List A → Option A
  find key [] = none
  find key (row ∷ rows) = let rest = find key rows in if id row == key then some row else rest

module _ {A : Type 0} (before : A → A → Bool) where
  unfoldable pub insert : A → List A → List A
  insert new [] = new ∷ []
  insert new (row ∷ rows) =
      let rest = insert new rows in if before row new then row ∷ rest else new ∷ row ∷ rows

  -- ORDER BY.
  unfoldable pub sort : List A → List A
  unfolding insert
  sort [] = []
  sort (row ∷ rows) = insert row (sort rows)
