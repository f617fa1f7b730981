-- ===== src/Prelude/Maps.antt =====
-- A storage map (`StorageMap`, `StorageDoubleMap`, `StorageNMap`) and the `BTreeMap` of a storage
-- value: the pairs of keys and values, a key at most once.
use mathlib.Core.Path.{◌≡◌, refl}
use mathlib.Core.Bool.{Bool, false}
use mathlib.Core.Option.{Option, none, some}
use mathlib.Core.List.{List, [], ◌∷◌}
use native.Mathlib.Omega.{arith}
use versus_project_metaverse.Prelude.Tests.{if◌then◌else◌, Eq, is_some, unwrap_or}

abbrev pub Map : Type 0 → Type 0 → Type 0
Map K V = List (K × V)

module _ {K V : Type 0} ⦃e : Eq K⦄ where
  unfoldable pub get? : K → Map K V → Option V
  get? k [] = none
  get? k ((j, v) ∷ m) = if e.beq j k then some v else get? k m

  -- A `ValueQuery` map answers its default where the key is missing.
  abbrev pub get_or : V → K → Map K V → V
  get_or d k m = unwrap_or d (get? k m)

  abbrev pub contains_key : K → Map K V → Bool
  contains_key k m = is_some (get? k m)

  unfoldable pub insert : K → V → Map K V → Map K V
  insert k v [] = (k, v) ∷ []
  insert k v ((j, u) ∷ m) = if e.beq j k then (k, v) ∷ m else (j, u) ∷ insert k v m

  unfoldable pub remove : K → Map K V → Map K V
  remove k [] = []
  remove k ((j, u) ∷ m) = if e.beq j k then m else (j, u) ∷ remove k m

  -- What `mutate_exists` leaves.
  unfoldable pub put : K → Option V → Map K V → Map K V
  unfolding insert remove
  put k none m = remove k m
  put k (some v) m = insert k v m

  -- No key stands twice.
  abbrev pub Distinct : Map K V → Type 0
  Distinct [] = Unit
  Distinct ((k, _) ∷ m) = (get? k m ≡ none) × Distinct m

  pub get?-insert :
      (j k : K) (v : V) (m : Map K V)
      → get? j (insert k v m) ≡ (if e.beq k j then some v else get? j m)
  unfolding get? insert
  get?-insert j k v [] = refl
  get?-insert j k v ((i, u) ∷ m) =
      ground (arith, e.beq_iff i k, e.beq_iff i j, e.beq_iff k j, get?-insert j k v m)

  pub get?-insert_self : (k : K) (v : V) (m : Map K V) → get? k (insert k v m) ≡ some v
  get?-insert_self k v m = ground (arith, get?-insert k k v m, e.beq_iff k k)

  pub get?-remove_ne : (j k : K) (m : Map K V) → e.beq k j ≡ false → get? j (remove k m) ≡ get? j m
  unfolding get? remove
  get?-remove_ne j k [] h = refl
  get?-remove_ne j k ((i, u) ∷ m) h =
      ground (arith, e.beq_iff i k, e.beq_iff i j, e.beq_iff k j, get?-remove_ne j k m h)

  pub get?-remove_self : (k : K) (m : Map K V) → Distinct m → get? k (remove k m) ≡ none
  unfolding get? remove
  get?-remove_self k [] d = refl
  get?-remove_self k ((i, u) ∷ m) d = ground (arith, e.beq_iff i k, get?-remove_self k m d.1)

  pub get?-remove :
      (j k : K) (m : Map K V)
      → Distinct m
      → get? j (remove k m) ≡ (if e.beq k j then none else get? j m)
  get?-remove j k m d = ground (arith, e.beq_iff k j, get?-remove_self k m d, get?-remove_ne j k m)

  pub insert-Distinct : (k : K) (v : V) (m : Map K V) → Distinct m → Distinct (insert k v m)
  unfolding get? insert
  insert-Distinct k v [] d = (refl, tt)
  insert-Distinct k v ((i, u) ∷ m) d =
      ground (arith, e.beq_iff i k, e.beq_iff k i, insert-Distinct k v m d.1, get?-insert i k v m)

  pub remove-Distinct : (k : K) (m : Map K V) → Distinct m → Distinct (remove k m)
  unfolding get? remove
  remove-Distinct k [] d = tt
  remove-Distinct k ((i, u) ∷ m) d =
      ground (arith, e.beq_iff i k, e.beq_iff k i, remove-Distinct k m d.1, get?-remove_ne i k m)

  pub get?-put :
      (j k : K) (o : Option V) (m : Map K V)
      → Distinct m
      → get? j (put k o m) ≡ (if e.beq k j then o else get? j m)
  unfolding put
  get?-put j k none m d = get?-remove j k m d
  get?-put j k (some v) m d = get?-insert j k v m

  pub put-Distinct : (k : K) (o : Option V) (m : Map K V) → Distinct m → Distinct (put k o m)
  unfolding put
  put-Distinct k none m d = remove-Distinct k m d
  put-Distinct k (some v) m d = insert-Distinct k v m d
