-- ===== src/Estate/CoordinateLaws.antt =====
-- pallets/estate/src/lib.rs: which coordinates the two tests accept.
use versus_project_metaverse.Prelude.{
  ℕ, zero, suc, ◌+◌, ◌-◌, ◌*◌, ◌^◌, ◌≤◌, ◌≡◌, refl, Bool, true, not, ◌&&◌, List, [], ◌∷◌, leb, ◌==◌,
  unwrap_or, ok, arith,
}
use versus_project_metaverse.Prelude.Lists.{length, map, all, sort, dedup}
use versus_project_metaverse.Primitives.{Coordinate}
use versus_project_metaverse.Estate.Coordinates.{
  index, adjacent, verify_land_unit_for_estate, verify_land_unit_in_bound, axis, yaxis, block_start,
  block_end, max_of, min_of, saturating_mul_by, saturating_add_by, saturating_sub_by,
  saturating_div_by_ten,
}

-- The elements from position `i` on.
unfoldable suffix : List ℕ → ℕ → List ℕ
suffix [] i = []
suffix (x ∷ xs) zero = x ∷ xs
suffix (x ∷ xs) (suc i) = suffix xs i

suffix-step :
    (vec : List ℕ) (i x : ℕ) (xs : List ℕ)
    → suffix vec i ≡ x ∷ xs
    → (index vec i ≡ ok x) × (suffix vec (suc i) ≡ xs)
unfolding suffix index
suffix-step [] i x xs h = absurd (ground arith)
suffix-step (y ∷ []) zero x xs h = ground arith
suffix-step (y ∷ z ∷ ys) zero x xs h = ground arith
suffix-step (y ∷ ys) (suc i) x xs h = suffix-step ys i x xs h

-- The loop compares each element with itself.
adjacent_lem :
    (vec : List ℕ) (i : ℕ) (xs : List ℕ) → suffix vec i ≡ xs → adjacent vec i xs ≡ ok true
unfolding adjacent
adjacent_lem vec i [] h = refl
adjacent_lem vec i (x ∷ xs) h =
    let (here, next) = suffix-step vec i x xs h in
    ground (arith, here, adjacent_lem vec (suc i) xs next)

suffix-zero : (vec : List ℕ) → suffix vec 0 ≡ vec
unfolding suffix
suffix-zero [] = refl
suffix-zero (x ∷ xs) = refl

-- The test that the units of a new estate lie next to each other refuses a list of one unit and
-- accepts every other one, however far apart its units are, and it never panics.
pub verify_land_unit_for_estate_lem :
    (units : List Coordinate) → verify_land_unit_for_estate units ≡ ok (not (length units == 1))
unfolding verify_land_unit_for_estate
verify_land_unit_for_estate_lem units =
    let xs = dedup (sort (map axis units)) in
    let ys = dedup (sort (map yaxis units)) in
    ground (arith, adjacent_lem xs 0 xs (suffix-zero xs), adjacent_lem ys 0 ys (suffix-zero ys))

-- The coordinate of a block, along one axis, for which no operation saturates.
abbrev pub IsBlockAxis : ℕ → Type 0
IsBlockAxis n = (2 ^ 31 - 21474835 ≤ n) × (n ≤ 2 ^ 31 + 21474835)

-- Whether a unit lies in a block along one axis: of the block at `n` these are the ten units
-- 10 * n - 4 to 10 * n + 5.
abbrev pub spans : ℕ → ℕ → Bool
spans n u = leb (10 * n) (u + 9 * 2 ^ 31 + 4) && leb (u + 9 * 2 ^ 31) (10 * n + 5)

block_start_lem : (n : ℕ) → IsBlockAxis n → block_start n + 9 * 2 ^ 31 + 4 ≡ 10 * n
unfolding block_start saturating_mul_by saturating_add_by saturating_sub_by saturating_div_by_ten
block_start_lem n h = ground (arith, h.0, h.1)

block_end_lem : (n : ℕ) → IsBlockAxis n → block_end n + 9 * 2 ^ 31 ≡ 10 * n + 5
unfolding block_end saturating_mul_by saturating_add_by saturating_div_by_ten
block_end_lem n h = ground (arith, h.0, h.1)

leb-max_of :
    (b x : ℕ) (xs : List ℕ) (d : ℕ)
    → leb (unwrap_or d (max_of (x ∷ xs))) b ≡ all (λ y. leb y b) (x ∷ xs)
unfolding max_of all
leb-max_of b x [] d = ground arith
leb-max_of b x (y ∷ ys) d = ground (arith, leb-max_of b y ys x)

leb-min_of :
    (b x : ℕ) (xs : List ℕ) (d : ℕ)
    → leb b (unwrap_or d (min_of (x ∷ xs))) ≡ all (λ y. leb b y) (x ∷ xs)
unfolding min_of all
leb-min_of b x [] d = ground arith
leb-min_of b x (y ∷ ys) d = ground (arith, leb-min_of b y ys x)

-- The four tests of the code on every unit, as one test on each.
all_in_block :
    (m n s e t f : ℕ)
    → s + 9 * 2 ^ 31 + 4 ≡ 10 * m
    → e + 9 * 2 ^ 31 ≡ 10 * m + 5
    → t + 9 * 2 ^ 31 + 4 ≡ 10 * n
    → f + 9 * 2 ^ 31 ≡ 10 * n + 5
    → (us : List Coordinate)
    → (all (λ y. leb s y) (map axis us)
        && all (λ y. leb y e) (map axis us)
        && all (λ y. leb y f) (map yaxis us)
        && all (λ y. leb t y) (map yaxis us))
      ≡ all (λ p. spans m p.0 && spans n p.1) us
unfolding all map
all_in_block m n s e t f hs he ht hf [] = refl
all_in_block m n s e t f hs he ht hf (u ∷ us) =
    ground (arith, all_in_block m n s e t f hs he ht hf us)

-- For a block where no operation of i32 saturates, a list of units passes the test of
-- deploy_land_block exactly when it is not empty and each unit lies in the block, a square of ten
-- units by ten.
pub verify_land_unit_in_bound_lem :
    (m n : ℕ) (us : List Coordinate)
    → IsBlockAxis m
    → IsBlockAxis n
    → verify_land_unit_in_bound (m, n) us
      ≡ (not (length us == 0) && all (λ p. spans m p.0 && spans n p.1) us)
unfolding verify_land_unit_in_bound map length
verify_land_unit_in_bound_lem m n [] hm hn =
    ground (arith, block_start_lem m hm, block_end_lem m hm)
verify_land_unit_in_bound_lem m n (u ∷ us) hm hn = ground (
  arith,
  leb-min_of (block_start m) u.0 (map axis us) 0,
  leb-max_of (block_end m) u.0 (map axis us) (2 ^ 32 - 1),
  leb-min_of (block_start n) u.1 (map yaxis us) 0,
  leb-max_of (block_end n) u.1 (map yaxis us) (2 ^ 32 - 1),
  all_in_block m n (block_start m) (block_end m) (block_start n) (block_end n)
      (block_start_lem m hm) (block_end_lem m hm) (block_start_lem n hn) (block_end_lem n hn)
      (u ∷ us),
)

-- Two blocks at different coordinates never accept the same unit.
pub verify_land_unit_in_bound-disjoint :
    (m n i j : ℕ) (u : Coordinate) (us vs : List Coordinate)
    → IsBlockAxis m
    → IsBlockAxis n
    → IsBlockAxis i
    → IsBlockAxis j
    → verify_land_unit_in_bound (m, n) (u ∷ us) ≡ true
    → verify_land_unit_in_bound (i, j) (u ∷ vs) ≡ true
    → (m ≡ i) × (n ≡ j)
unfolding all
verify_land_unit_in_bound-disjoint m n i j u us vs hm hn hi hj p q = ground (
  arith,
  verify_land_unit_in_bound_lem m n (u ∷ us) hm hn,
  verify_land_unit_in_bound_lem i j (u ∷ vs) hi hj,
)
