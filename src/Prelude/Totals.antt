-- ===== src/Prelude/Totals.antt =====
-- The sum of a weight over the entries of a map, and how an update moves it.
use Prim.Native.Nat.{ℕ, ◌+◌, ◌≤◌}
use mathlib.Core.Path.{◌≡◌, refl}
use mathlib.Core.Bool.{false}
use mathlib.Core.Option.{Option, none, some}
use mathlib.Core.List.{[], ◌∷◌}
use native.Mathlib.Omega.{arith}
use versus_project_metaverse.Prelude.Tests.{Eq}
use versus_project_metaverse.Prelude.Maps.{Map, get?, insert, remove, put}

module _ {K V : Type 0} (w : K → V → ℕ) where
  unfoldable pub total : Map K V → ℕ
  total [] = 0
  total ((k, v) ∷ m) = w k v + total m

  -- The weight of what stands under a key.
  abbrev pub held : K → Option V → ℕ
  held k none = 0
  held k (some v) = w k v

module _ {K V : Type 0} ⦃e : Eq K⦄ (w : K → V → ℕ) where
  pub total-insert :
      (k : K) (v : V) (m : Map K V)
      → total w (insert k v m) + held w k (get? k m) ≡ total w m + w k v
  unfolding total insert get?
  total-insert k v [] = omega arith
  total-insert k v ((i, u) ∷ m) = ground (arith, e.beq_iff i k, total-insert k v m)

  pub total-remove : (k : K) (m : Map K V) → total w (remove k m) + held w k (get? k m) ≡ total w m
  unfolding total remove get?
  total-remove k [] = omega arith
  total-remove k ((i, u) ∷ m) = ground (arith, e.beq_iff i k, total-remove k m)

  pub total-put :
      (k : K) (o : Option V) (m : Map K V)
      → total w (put k o m) + held w k (get? k m) ≡ total w m + held w k o
  unfolding put
  total-put k none m = omega (arith, total-remove k m)
  total-put k (some v) m = total-insert k v m

  pub held-le-total : (k : K) (m : Map K V) → held w k (get? k m) ≤ total w m
  held-le-total k m = omega (arith, total-remove k m)

module _ {K V : Type 0} (w : K → V → ℕ) (n : ℕ) where
  -- No entry weighs less than `n`.
  abbrev pub AtLeast : Map K V → Type 0
  AtLeast [] = Unit
  AtLeast ((k, v) ∷ m) = (n ≤ w k v) × AtLeast m

module _ {K V : Type 0} ⦃e : Eq K⦄ (w : K → V → ℕ) (n : ℕ) where
  pub insert-AtLeast :
      (k : K) (v : V) (m : Map K V) → n ≤ w k v → AtLeast w n m → AtLeast w n (insert k v m)
  unfolding insert
  insert-AtLeast k v [] p h = (p, tt)
  insert-AtLeast k v (x ∷ m) p h = ground (arith, insert-AtLeast k v m p)

  pub remove-AtLeast : (k : K) (m : Map K V) → AtLeast w n m → AtLeast w n (remove k m)
  unfolding remove
  remove-AtLeast k [] h = tt
  remove-AtLeast k (x ∷ m) h = ground (arith, remove-AtLeast k m)

  pub get?-AtLeast : (k : K) (v : V) (m : Map K V) → AtLeast w n m → get? k m ≡ some v → n ≤ w k v
  unfolding get?
  get?-AtLeast k v [] h p = absurd (ground arith)
  get?-AtLeast k v ((j, u) ∷ m) h p = ground (arith, e.beq_iff j k, get?-AtLeast k v m)

module _ {K V : Type 0} ⦃e : Eq K⦄ (w w' : K → V → ℕ) (k : K) where
  -- Two weights that differ at a missing key alone.
  pub total-ext_ne :
      ((j : K) (v : V) → e.beq k j ≡ false → w j v ≡ w' j v)
      → (m : Map K V) → get? k m ≡ none
      → total w m ≡ total w' m
  unfolding total get?
  total-ext_ne same [] missing = refl
  total-ext_ne same ((j, v) ∷ m) missing =
      ground (arith, e.beq_iff j k, e.beq_iff k j, same j v, total-ext_ne same m)
