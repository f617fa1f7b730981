-- ===== src/Estate/Metadata.antt =====
-- pallets/estate/src/lib.rs: the properties of the tokens of land units and estates.
use versus_project_metaverse.Prelude.{
  ℕ, ◌+◌, ◌*◌, ◌%◌, ◌^◌, ◌<◌, ◌≡◌, refl, ap, ◌∙◌, sym, List, [], ◌∷◌, ◌++◌, arith,
}
use versus_project_metaverse.Primitives.{MetaverseId, EstateId, Coordinate}
use versus_project_metaverse.Estate.Coordinates.{
  to_be_bytes, i32_to_be_bytes, get_land_token_properties, get_estate_token_properties,
}

-- The number that bytes stand for, the most significant first.
abbrev pub read_be_bytes : ℕ → List ℕ → ℕ
read_be_bytes n [] = n
read_be_bytes n (x ∷ xs) = read_be_bytes (n * 256 + x) xs

read-to_be_bytes_four : (m n : ℕ) → n < 2 ^ 32 → read_be_bytes m (to_be_bytes 4 n) ≡ m * 2 ^ 32 + n
unfolding to_be_bytes
read-to_be_bytes_four m n h = omega (arith, h)

read-to_be_bytes_eight : (m n : ℕ) → n < 2 ^ 64 → read_be_bytes m (to_be_bytes 8 n) ≡ m * 2 ^ 64 + n
unfolding to_be_bytes
read-to_be_bytes_eight m n h = omega (arith, h)

read-append :
    (n : ℕ) (xs ys : List ℕ) → read_be_bytes n (xs ++ ys) ≡ read_be_bytes (read_be_bytes n xs) ys
read-append n [] ys = refl
read-append n (x ∷ xs) ys = read-append (n * 256 + x) xs ys

pair_path : {p q : Coordinate} → p.0 ≡ q.0 → p.1 ≡ q.1 → p ≡ q
pair_path h k = λ t. (h t, k t)

read_land :
    (m : MetaverseId) (p : Coordinate)
    → read_be_bytes 0 (get_land_token_properties m p).0
      ≡ (p.0 + 2 ^ 31) % 2 ^ 32 * 2 ^ 32 + (p.1 + 2 ^ 31) % 2 ^ 32
unfolding get_land_token_properties i32_to_be_bytes
read_land m p =
    let x = (p.0 + 2 ^ 31) % 2 ^ 32 in
    let y = (p.1 + 2 ^ 31) % 2 ^ 32 in
    rw (read-append 0 (to_be_bytes 4 x) (to_be_bytes 4 y)) (
      rw (read-to_be_bytes_four 0 x (omega arith))
        (read-to_be_bytes_four (0 * 2 ^ 32 + x) y (omega arith) ∙ omega arith))

read_estate :
    (m : MetaverseId) (i : EstateId)
    → m < 2 ^ 64
    → i < 2 ^ 64
    → read_be_bytes 0 (get_estate_token_properties m i).0 ≡ m * 2 ^ 64 + i
unfolding get_estate_token_properties
read_estate m i hm hi = rw (read-append 0 (to_be_bytes 8 m) (to_be_bytes 8 i)) (
    rw (read-to_be_bytes_eight 0 m hm) (read-to_be_bytes_eight (0 * 2 ^ 64 + m) i hi ∙ omega arith))

-- The metadata of a land token tells its coordinate: equal metadata, equal coordinates, whatever the
-- metaverses are. That of an estate token tells its metaverse and its estate.
pub get_token_properties-injective :
    (m n : MetaverseId) (p q : Coordinate) (i j : EstateId)
    → (p.0 < 2 ^ 32) × (p.1 < 2 ^ 32) × (q.0 < 2 ^ 32) × (q.1 < 2 ^ 32)
    → (m < 2 ^ 64) × (n < 2 ^ 64) × (i < 2 ^ 64) × (j < 2 ^ 64)
    → ((get_land_token_properties m p).0 ≡ (get_land_token_properties n q).0 → p ≡ q)
      × ((get_estate_token_properties m i).0 ≡ (get_estate_token_properties n j).0
          → (m ≡ n) × (i ≡ j))
get_token_properties-injective m n p q i j (a, b, d, e) (f, g, h, k) = (
  λ same.
      let numbers = sym (read_land m p) ∙ ap (read_be_bytes 0) same ∙ read_land n q in
      pair_path (omega (arith, numbers, a, b, d, e)) (omega (arith, numbers, a, b, d, e)),
  λ same.
      let numbers = sym (read_estate m i f h) ∙ ap (read_be_bytes 0) same ∙ read_estate n j g k in
      (omega (arith, numbers, f, g, h, k), omega (arith, numbers, f, g, h, k)),
)
