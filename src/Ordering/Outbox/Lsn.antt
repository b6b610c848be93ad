-- ===== src/Ordering/Outbox/Lsn.antt =====
-- internal/ordering/outbox/lsn.go. An LSN is a slice of bytes, in SQL Server's order.
use golang_microservices_eco.Prelude.{
  ℕ, ◌≡◌, refl, List, [], ◌∷◌, Bool, true, false, ◌==◌, ltb, if◌then◌else◌, arith, negate,
}

abbrev pub Lsn : Type 0
Lsn = List ℕ

unfoldable pub is_zero : Lsn → Bool
is_zero [] = true
is_zero (b ∷ l) = let rest = is_zero l in if b == 0 then rest else false

pub data Order : Type 0 where
  lt eq gt : Order

-- bytes.Compare.
unfoldable pub compare : Lsn → Lsn → Order
compare [] [] = eq
compare [] (y ∷ m) = lt
compare (x ∷ l) [] = gt
compare (x ∷ l) (y ∷ m) =
    let rest = compare l m in if ltb x y then lt else if ltb y x then gt else rest

abbrev is_lt : Order → Bool
is_lt lt = true
is_lt _ = false

abbrev is_eq : Order → Bool
is_eq eq = true
is_eq _ = false

abbrev pub is_gt : Order → Bool
is_gt gt = true
is_gt _ = false

-- a is before b; a and b are one position.
abbrev pub before : Lsn → Lsn → Bool
before a b = is_lt (compare a b)

abbrev pub same : Lsn → Lsn → Bool
same a b = is_eq (compare a b)

pub compare_refl : (a : Lsn) → compare a a ≡ eq
unfolding compare
compare_refl [] = refl
compare_refl (x ∷ a) = ground (arith, compare_refl a)

eq_of_compare : (a b : Lsn) → compare a b ≡ eq → a ≡ b
unfolding compare
eq_of_compare [] [] h = refl
eq_of_compare [] (y ∷ b) h = cc
eq_of_compare (x ∷ a) [] h = cc
eq_of_compare (x ∷ a) (y ∷ b) h = ground (arith, eq_of_compare a b)

compare_swap : (a b : Lsn) → compare a b ≡ lt → compare b a ≡ gt
unfolding compare
compare_swap [] [] h = cc
compare_swap [] (y ∷ b) h = refl
compare_swap (x ∷ a) [] h = cc
compare_swap (x ∷ a) (y ∷ b) h = ground (arith, compare_swap a b)

pub compare_swap_gt : (a b : Lsn) → compare a b ≡ gt → compare b a ≡ lt
unfolding compare
compare_swap_gt [] [] h = cc
compare_swap_gt [] (y ∷ b) h = cc
compare_swap_gt (x ∷ a) [] h = refl
compare_swap_gt (x ∷ a) (y ∷ b) h = ground (arith, compare_swap_gt a b)

before_trans : (a b c : Lsn) → compare a b ≡ lt → compare b c ≡ lt → compare a c ≡ lt
unfolding compare
before_trans [] [] c h k = cc
before_trans [] (y ∷ b) [] h k = cc
before_trans [] (y ∷ b) (z ∷ c) h k = refl
before_trans (x ∷ a) [] c h k = cc
before_trans (x ∷ a) (y ∷ b) [] h k = cc
before_trans (x ∷ a) (y ∷ b) (z ∷ c) h k = ground (arith, before_trans a b c)

pub not_before_trans : (a b c : Lsn) → before b a ≡ false → before c b ≡ false → before c a ≡ false
unfolding compare
not_before_trans [] [] c h k = k
not_before_trans [] (y ∷ b) [] h k = cc
not_before_trans [] (y ∷ b) (z ∷ c) h k = refl
not_before_trans (x ∷ a) [] c h k = cc
not_before_trans (x ∷ a) (y ∷ b) [] h k = cc
not_before_trans (x ∷ a) (y ∷ b) (z ∷ c) h k = ground (arith, not_before_trans a b c)

-- What is before a position is before all that is not before it.
pub before_not_before : (a b c : Lsn) → compare a b ≡ lt → before c b ≡ false → compare a c ≡ lt
unfolding compare
before_not_before [] [] c h k = cc
before_not_before [] (y ∷ b) [] h k = cc
before_not_before [] (y ∷ b) (z ∷ c) h k = refl
before_not_before (x ∷ a) [] c h k = cc
before_not_before (x ∷ a) (y ∷ b) [] h k = cc
before_not_before (x ∷ a) (y ∷ b) (z ∷ c) h k = ground (arith, before_not_before a b c)

-- What is not after a position is before all that is after it.
pub not_after_before : (a b c : Lsn) → before b a ≡ false → compare b c ≡ lt → compare a c ≡ lt
unfolding compare
not_after_before [] b [] h k = ground arith
not_after_before [] b (z ∷ c) h k = refl
not_after_before (x ∷ a) [] c h k = cc
not_after_before (x ∷ a) (y ∷ b) [] h k = cc
not_after_before (x ∷ a) (y ∷ b) (z ∷ c) h k = ground (arith, not_after_before a b c)

same-of-between : (a b : Lsn) → before a b ≡ false → before b a ≡ false → same a b ≡ true
unfolding compare
same-of-between [] [] h k = refl
same-of-between [] (y ∷ b) h k = cc
same-of-between (x ∷ a) [] h k = cc
same-of-between (x ∷ a) (y ∷ b) h k = ground (arith, same-of-between a b)

same-sym : (a b : Lsn) → same a b ≡ same b a
unfolding compare
same-sym [] [] = refl
same-sym [] (y ∷ b) = refl
same-sym (x ∷ a) [] = refl
same-sym (x ∷ a) (y ∷ b) = ground (arith, same-sym a b)

pub same-eq : (a b : Lsn) → same a b ≡ true → a ≡ b
same-eq a b h = ground (arith, eq_of_compare a b)

-- Among what is not after v, to be before v is to differ from it.
pub not_same-before : (v r : Lsn) → before v r ≡ false → negate (same r v) ≡ before r v
not_same-before v r h = ground (arith, same-of-between r v)
