-- ===== src/Platform/Pagination.antt =====
-- internal/platform/pagination/pagination.go. An int has 64 bits, and a product keeps its
-- wrap-around.
use golang_microservices_eco.Prelude.{
  ℕ, zero, suc, ◌-◌, ◌*◌, ◌%◌, ◌^◌, ℤ, pos, negsuc, List, if◌then◌else◌, ltb,
}

abbrev default_page_size : ℕ
default_page_size = 10

abbrev pub max_page_size : ℕ
max_page_size = 100

pub record Request : Type 0 where
  pub page_index : ℤ
  pub page_size : ℤ

-- A request that is in range: what Normalized returns.
pub record Normal : Type 0 where
  pub page_index : ℕ
  pub page_size : ℕ

unfoldable pub index_of : ℤ → ℕ
index_of (pos n) = n
index_of (negsuc n) = 0

unfoldable pub size_of : ℤ → ℕ
size_of (pos zero) = default_page_size
size_of (pos (suc n)) = if ltb max_page_size (suc n) then max_page_size else suc n
size_of (negsuc n) = default_page_size

unfoldable pub normalized : Request → Normal
unfolding index_of size_of
normalized r = record { page_index = index_of r.page_index; page_size = size_of r.page_size }

-- The int of 64 bits with these bits.
unfoldable pub to_int64 : ℕ → ℤ
to_int64 n =
    let bits = n % 2 ^ 64 in if ltb bits (2 ^ 63) then pos bits else negsuc (2 ^ 64 - 1 - bits)

unfoldable pub offset : Request → ℤ
unfolding normalized to_int64
offset r = to_int64 ((normalized r).page_index * (normalized r).page_size)

unfoldable pub limit : Request → ℕ
unfolding normalized
limit r = (normalized r).page_size

pub record Page (A : Type 0) : Type 0 where
  pub page_index : ℕ
  pub page_size : ℕ
  pub count : ℕ
  pub data_ : List A

-- NewResult.
unfoldable pub new_result : {A : Type 0} → Request → ℕ → List A → Page A
unfolding normalized
new_result r count items = record {
  page_index = (normalized r).page_index;
  page_size = (normalized r).page_size;
  count = count;
  data_ = items;
}
