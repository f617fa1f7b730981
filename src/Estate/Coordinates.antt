-- ===== src/Estate/Coordinates.antt =====
-- pallets/estate/src/lib.rs: the tests on coordinates and the properties of the tokens. An i32 is
-- given by its distance from `i32::MIN`, so 2 ^ 31 stands for 0.
use versus_project_metaverse.Prelude.{
  ℕ, zero, suc, ◌+◌, ◌-◌, ◌*◌, ◌/◌, ◌%◌, ◌^◌, min, Bool, true, false, ◌&&◌, Option, none, some,
  List, [], ◌∷◌, ◌++◌, leb, ◌==◌, if◌then◌else◌, unwrap_or, ok, panic, ◌>>=◌,
}
use versus_project_metaverse.Prelude.Lists.{length, map, sort, dedup}
use versus_project_metaverse.Primitives.{MetaverseId, EstateId, NftMetadata, Attributes, Coordinate}
use versus_project_metaverse.Estate.Types.{Result}

abbrev pub i32_zero : ℕ
i32_zero = 2 ^ 31

abbrev pub i32_max : ℕ
i32_max = 2 ^ 32 - 1

-- The operations of i32 with a constant that is not negative.
unfoldable pub saturating_mul_by : ℕ → ℕ → ℕ
saturating_mul_by k n = min (k * n - (k - 1) * 2 ^ 31) (2 ^ 32 - 1)

unfoldable pub saturating_add_by : ℕ → ℕ → ℕ
saturating_add_by k n = min (n + k) (2 ^ 32 - 1)

unfoldable pub saturating_sub_by : ℕ → ℕ → ℕ
saturating_sub_by k n = n - k

-- The quotient is rounded towards 0.
unfoldable pub saturating_div_by_ten : ℕ → ℕ
saturating_div_by_ten n =
    if leb (2 ^ 31) n then 2 ^ 31 + (n - 2 ^ 31) / 10 else 2 ^ 31 - (2 ^ 31 - n) / 10

unfoldable pub i32_saturating_sub : ℕ → ℕ → ℕ
i32_saturating_sub a b = min (a + 2 ^ 31 - b) (2 ^ 32 - 1)

-- `Iterator::max` and `Iterator::min`
unfoldable pub max_of : List ℕ → Option ℕ
max_of [] = none
max_of (x ∷ xs) = some (let m = unwrap_or x (max_of xs) in if leb x m then m else x)

unfoldable pub min_of : List ℕ → Option ℕ
min_of [] = none
min_of (x ∷ xs) = some (let m = unwrap_or x (min_of xs) in if leb m x then m else x)

abbrev pub axis : Coordinate → ℕ
axis p = p.0

abbrev pub yaxis : Coordinate → ℕ
yaxis p = p.1

-- The first and the last unit of a block along one axis.
unfoldable pub block_start : ℕ → ℕ
unfolding saturating_mul_by saturating_add_by saturating_sub_by saturating_div_by_ten
block_start n =
    saturating_add_by 1 (saturating_div_by_ten (saturating_sub_by 50 (saturating_mul_by 100 n)))

unfoldable pub block_end : ℕ → ℕ
unfolding saturating_mul_by saturating_add_by saturating_div_by_ten
block_end n = saturating_div_by_ten (saturating_add_by 50 (saturating_mul_by 100 n))

unfoldable pub verify_land_unit_in_bound : Coordinate → List Coordinate → Bool
unfolding block_start block_end max_of min_of
verify_land_unit_in_bound block units =
    let max_axis = unwrap_or (2 ^ 32 - 1) (max_of (map axis units)) in
    let max_yaxis = unwrap_or (2 ^ 32 - 1) (max_of (map yaxis units)) in
    let min_axis = unwrap_or 0 (min_of (map axis units)) in
    let min_yaxis = unwrap_or 0 (min_of (map yaxis units)) in
    leb (block_start block.0) min_axis
    && leb max_axis (block_end block.0)
    && leb max_yaxis (block_end block.1)
    && leb (block_start block.1) min_yaxis

-- `vec[i]`
unfoldable pub index : List ℕ → ℕ → Result ℕ
index [] i = panic
index (x ∷ xs) zero = ok x
index (x ∷ xs) (suc i) = index xs i

-- The loop over `vec.iter().enumerate()`, from the element at `i` on: no two neighbours that are
-- more than 1 apart.
unfoldable pub adjacent : List ℕ → ℕ → List ℕ → Result Bool
unfolding index i32_saturating_sub
adjacent vec i [] = ok true
adjacent vec i (x ∷ xs) =
    let rest = adjacent vec (suc i) xs in
    index vec i >>= λ at_i.
    if x == at_i
    then rest
    else (index vec (suc i) >>= λ after_i.
        if i32_saturating_sub x after_i == 2 ^ 31 + 1 then rest else ok false)

unfoldable pub verify_land_unit_for_estate : List Coordinate → Result Bool
unfolding adjacent
verify_land_unit_for_estate units = if length units == 1 then ok false else do
  let vec_axis = dedup (sort (map axis units))
  let vec_yaxis = dedup (sort (map yaxis units))
  is_axis_valid ← adjacent vec_axis 0 vec_axis
  is_yaxis_valid ← adjacent vec_yaxis 0 vec_yaxis
  ok (is_axis_valid && is_yaxis_valid)

-- `to_be_bytes` of a number of `w` bytes.
unfoldable pub to_be_bytes : ℕ → ℕ → List ℕ
to_be_bytes zero n = []
to_be_bytes (suc w) n = n / 256 ^ w % 256 ∷ to_be_bytes w n

-- The two's complement of an i32.
unfoldable pub i32_to_be_bytes : ℕ → List ℕ
unfolding to_be_bytes
i32_to_be_bytes n = to_be_bytes 4 ((n + 2 ^ 31) % 2 ^ 32)

abbrev pub metaverse_key : List ℕ
metaverse_key =
    b'M' ∷ b'e' ∷ b't' ∷ b'a' ∷ b'v' ∷ b'e' ∷ b'r' ∷ b's' ∷ b'e' ∷ b'I' ∷ b'd' ∷ b':' ∷ []

abbrev pub coordinate_key : List ℕ
coordinate_key = b'C' ∷ b'o' ∷ b'o' ∷ b'r' ∷ b'd' ∷ b'i' ∷ b'n' ∷ b'a' ∷ b't' ∷ b'e' ∷ b':' ∷ []

abbrev pub estate_key : List ℕ
estate_key = b'E' ∷ b's' ∷ b't' ∷ b'a' ∷ b't' ∷ b'e' ∷ b' ' ∷ b'I' ∷ b'd' ∷ b':' ∷ []

unfoldable pub get_land_token_properties : MetaverseId → Coordinate → NftMetadata × Attributes
unfolding to_be_bytes i32_to_be_bytes
get_land_token_properties metaverse_id coordinate =
    let attribute = i32_to_be_bytes coordinate.0 ++ i32_to_be_bytes coordinate.1 in
    (attribute, (metaverse_key, to_be_bytes 8 metaverse_id) ∷ (coordinate_key, attribute) ∷ [])

unfoldable pub get_estate_token_properties : MetaverseId → EstateId → NftMetadata × Attributes
unfolding to_be_bytes
get_estate_token_properties metaverse_id estate_id =
    let of_metaverse = to_be_bytes 8 metaverse_id in
    let of_estate = to_be_bytes 8 estate_id in
    (of_metaverse ++ of_estate, (metaverse_key, of_metaverse) ∷ (estate_key, of_estate) ∷ [])
