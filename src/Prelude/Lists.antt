-- ===== src/Prelude/Lists.antt =====
-- Sequences over the native numbers: what the pallets call of `Vec` and its iterators.
use Prim.Native.Nat.{ℕ, ◌+◌}
use mathlib.Core.Path.{◌≡◌}
use mathlib.Core.Bool.{Bool, true, ◌&&◌}
use mathlib.Core.Option.{Option, none, some}
use mathlib.Core.List.{List, [], ◌∷◌}
use native.Mathlib.Omega.{arith}
use mathlib.Core.Logic.{inl, inr}
use versus_project_metaverse.Prelude.Tests.{leb, ◌==◌, if◌then◌else◌, Eq, Option-cases}

unfoldable pub length {ℓ} : {A : Type ℓ} → List A → ℕ
length [] = 0
length (_ ∷ xs) = length xs + 1

unfoldable pub map {ℓ κ} : {A : Type ℓ} {B : Type κ} → (A → B) → List A → List B
map f [] = []
map f (x ∷ xs) = f x ∷ map f xs

unfoldable pub all {ℓ} : {A : Type ℓ} → (A → Bool) → List A → Bool
all p [] = true
all p (x ∷ xs) = p x && all p xs

-- `Vec::sort`
unfoldable pub insert_sorted : ℕ → List ℕ → List ℕ
insert_sorted x [] = x ∷ []
insert_sorted x (y ∷ ys) = let rest = insert_sorted x ys in if leb x y then x ∷ y ∷ ys else y ∷ rest

unfoldable pub sort : List ℕ → List ℕ
unfolding insert_sorted
sort [] = []
sort (x ∷ xs) = insert_sorted x (sort xs)

-- `Vec::dedup`: an element is dropped where it equals the one before it.
unfoldable pub dedup_after : ℕ → List ℕ → List ℕ
dedup_after x [] = []
dedup_after x (y ∷ ys) = let rest = dedup_after y ys in if x == y then rest else y ∷ rest

unfoldable pub dedup : List ℕ → List ℕ
unfolding dedup_after
dedup [] = []
dedup (x ∷ xs) = x ∷ dedup_after x xs

module _ {ℓ} {A : Type ℓ} ⦃e : Eq A⦄ where
  -- `Iterator::position` and `Vec::remove` at it.
  unfoldable pub remove_first : A → List A → Option (List A)
  remove_first a [] = none
  remove_first a (x ∷ xs) =
      let rest = remove_first a xs in
      if e.beq x a then some xs else elim rest [ none ↦ none | some ys ↦ some (x ∷ ys) ]

  pub remove_first-length :
      (a : A) (xs ys : List A) → remove_first a xs ≡ some ys → length xs ≡ length ys + 1
  unfolding remove_first length
  remove_first-length a [] ys h = absurd (ground arith)
  remove_first-length a (x ∷ xs) ys h = elim (Option-cases (remove_first a xs)) [
    | inl missing ↦ ground (arith, missing)
    | inr (zs, found) ↦ let ih = remove_first-length a xs zs found in ground (arith, found, ih)
  ]
