-- ===== src/Prelude/Keys.antt =====
-- Maps whose keys are ids that were handed out in turn, and the number of entries of a map.
use Prim.Native.Nat.{ℕ, ◌+◌, ◌<◌, ◌≤◌}
use mathlib.Core.Path.{◌≡◌, refl}
use mathlib.Core.Option.{none, some}
use mathlib.Core.List.{[], ◌∷◌}
use native.Mathlib.Omega.{arith}
use versus_project_metaverse.Prelude.Tests.{Eq, nat_eq, is_some, if◌then◌else◌}
use versus_project_metaverse.Prelude.Maps.{Map, get?, insert, remove}
use versus_project_metaverse.Prelude.Totals.{total, total-insert, total-remove}

-- Every key is less than `n`.
abbrev pub Below : {V : Type 0} → ℕ → Map ℕ V → Type 0
Below n [] = Unit
Below n ((k, _) ∷ m) = (k < n) × Below n m

module _ {V : Type 0} where
  pub Below-weaken : (n p : ℕ) (m : Map ℕ V) → n ≤ p → Below n m → Below p m
  Below-weaken n p [] h b = tt
  Below-weaken n p ((k, v) ∷ m) h b = (omega (arith, b.0), Below-weaken n p m h b.1)

  pub Below-fresh : (n k : ℕ) (m : Map ℕ V) → n ≤ k → Below n m → get? k m ≡ none
  unfolding get?
  Below-fresh n k [] h b = refl
  Below-fresh n k ((j, v) ∷ m) h b = ground (arith, b.0, Below-fresh n k m h b.1)

  pub insert-Below : (n k : ℕ) (v : V) (m : Map ℕ V) → k < n → Below n m → Below n (insert k v m)
  unfolding insert
  insert-Below n k v [] h b = (h, tt)
  insert-Below n k v ((j, u) ∷ m) h b = ground (arith, b.0, b.1, insert-Below n k v m h b.1)

  pub remove-Below : (n k : ℕ) (m : Map ℕ V) → Below n m → Below n (remove k m)
  unfolding remove
  remove-Below n k [] b = tt
  remove-Below n k ((j, u) ∷ m) b = ground (arith, b.0, b.1, remove-Below n k m b.1)

  -- What stands under a key is below the bound.
  pub get?-Below : (n k : ℕ) (v : V) (m : Map ℕ V) → get? k m ≡ some v → Below n m → k < n
  unfolding get?
  get?-Below n k v [] h b = absurd (ground arith)
  get?-Below n k v ((j, u) ∷ m) h b = ground (arith, b.0, get?-Below n k v m)

module _ {K V : Type 0} where
  -- The number of entries.
  abbrev pub size : Map K V → ℕ
  size m = total (λ _ _. 1) m

module _ {K V : Type 0} ⦃e : Eq K⦄ where
  pub size-insert :
      (k : K) (v : V) (m : Map K V)
      → size (insert k v m) ≡ (if is_some (get? k m) then size m else size m + 1)
  size-insert k v m = ground (arith, total-insert (λ _ _. 1) k v m)

  pub size-remove :
      (k : K) (m : Map K V)
      → size m ≡ (if is_some (get? k m) then size (remove k m) + 1 else size (remove k m))
  size-remove k m = ground (arith, total-remove (λ _ _. 1) k m)
