-- ===== src/Ordering/Repository/Reads/Pages.antt =====
-- internal/ordering/mssql/repository.go: List over the pages of a client.
use native.Mathlib.Nat.{zero-add, suc-add, zero-mul, suc-mul}
use golang_microservices_eco.Prelude.{
  ℕ, zero, suc, ◌+◌, ◌*◌, ◌^◌, ◌≤◌, ◌<◌, ◌≡◌, refl, sym, ap, ◌∙◌, arith, pos, List, [], ◌∷◌, ◌++◌,
  take, drop, ok, ◌>>=◌,
}
use golang_microservices_eco.Platform.Pagination.{
  Request, max_page_size, offset, limit, normalized, size_of, index_of, to_int64,
}
use golang_microservices_eco.Ordering.Rows.{OrderRow}
use golang_microservices_eco.Ordering.Repository.{Result}
use golang_microservices_eco.Ordering.Repository.Reads.{page_of}

abbrev request : ℕ → ℕ → Request
request index size = record { page_index = pos index; page_size = pos size }

take_empty : (n : ℕ) → take {A = OrderRow} n [] ≡ []
take_empty zero = refl
take_empty (suc n) = refl

take_add : (a b : ℕ) (xs : List OrderRow) → take (a + b) xs ≡ take a xs ++ take b (drop a xs)
take_add zero b xs = rw zero-add refl
take_add (suc a) b [] = take_empty (suc a + b) ∙ sym (take_empty b)
take_add (suc a) b (x ∷ xs) = rw suc-add (ap (λ l. x ∷ l) (take_add a b xs))

-- The rows of the first pages of a size, one after another.
abbrev pub first_pages : ℕ → ℕ → List OrderRow → Result (List OrderRow)
first_pages zero size rows = ok []
first_pages (suc n) size rows = do
  earlier ← first_pages n size rows
  page ← page_of (offset (request n size)) (limit (request n size)) rows
  ok (earlier ++ page)

limit-request : (n size : ℕ) → 1 ≤ size → size ≤ max_page_size → limit (request n size) ≡ size
unfolding limit normalized size_of
limit-request n zero h k = absurd (omega arith)
limit-request n (suc size) h k = ground arith

to_int64_small : (n : ℕ) → n < 2 ^ 63 → to_int64 n ≡ pos n
unfolding to_int64
to_int64_small n h = ground arith

offset-request :
    (n size : ℕ)
    → 1 ≤ size
    → size ≤ max_page_size
    → n * size < 2 ^ 63
    → offset (request n size) ≡ pos (n * size)
unfolding offset normalized index_of limit
offset-request n size h k b =
    ap (λ s. to_int64 (n * s)) (limit-request n size h k) ∙ to_int64_small (n * size) b

page_of-request :
    (n size : ℕ) (rows : List OrderRow)
    → 1 ≤ size
    → size ≤ max_page_size
    → n * size < 2 ^ 63
    → page_of (offset (request n size)) (limit (request n size)) rows
      ≡ ok (take size (drop (n * size) rows))
unfolding page_of
page_of-request n size rows h k b = rw (offset-request n size h k b, limit-request n size h k) refl

-- The pages of a size from 1 to 100, as far as their offsets fit an int, are the first rows, each
-- once and in order.
pub first_pages-take :
    (n size : ℕ) (rows : List OrderRow)
    → 1 ≤ size
    → size ≤ max_page_size
    → n * size ≤ 2 ^ 63
    → first_pages n size rows ≡ ok (take (n * size) rows)
first_pages-take zero size rows h k b = rw zero-mul refl
first_pages-take (suc n) size rows h k b =
    let earlier : n * size ≤ 2 ^ 63 = omega (arith, suc-mul n size) in
    let here : n * size < 2 ^ 63 = omega (arith, suc-mul n size) in
    rw (first_pages-take n size rows h k earlier, page_of-request n size rows h k here, suc-mul)
      (ap (λ l. ok l) (sym (take_add (n * size) size rows)))
