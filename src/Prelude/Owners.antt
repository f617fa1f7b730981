-- ===== src/Prelude/Owners.antt =====
-- An index of owners: a map from ids to records that name their owner, and the set of the pairs of an
-- owner and an id.
use Prim.Native.Nat.{ℕ}
use mathlib.Core.Path.{◌≡◌}
use mathlib.Core.Bool.{Bool, false}
use mathlib.Core.Option.{Option, none, some}
use native.Mathlib.Omega.{arith}
use versus_project_metaverse.Prelude.Tests.{nat_eq, pair_eq, is_some, ◌==◌}
use versus_project_metaverse.Prelude.Maps.{
  Map, get?, insert, remove, Distinct, get?-insert, get?-remove, insert-Distinct, remove-Distinct,
}

module _ {V : Type 0} (owner : V → ℕ) where
  abbrev pub owned_by : ℕ → Option V → Bool
  owned_by who none = false
  owned_by who (some v) = owner v == who

  -- An account has an entry for an id exactly when it owns what stands there.
  pub record Indexed (m : Map ℕ V) (o : Map (ℕ × ℕ) (Unit {0})) : Type 0 where
    pub owners : (who id : ℕ) → is_some (get? (who, id) o) ≡ owned_by who (get? id m)
    pub distinct : Distinct m
    pub distinct_owners : Distinct o

  pub Indexed-add :
      (id : ℕ) (v : V) (m : Map ℕ V) (o : Map (ℕ × ℕ) (Unit {0}))
      → get? id m ≡ none
      → Indexed m o
      → Indexed (insert id v m) (insert (owner v, id) tt o)
  Indexed-add id v m o fresh h = record {
    owners = λ w i.
        ground
          (arith, h.owners w i, fresh, get?-insert i id v m, get?-insert (w, i) (owner v, id) tt o);
    distinct = insert-Distinct id v m h.distinct;
    distinct_owners = insert-Distinct (owner v, id) tt o h.distinct_owners;
  }

  pub Indexed-rewrite :
      (id : ℕ) (v v' : V) (m : Map ℕ V) (o : Map (ℕ × ℕ) (Unit {0}))
      → get? id m ≡ some v
      → owner v' ≡ owner v
      → Indexed m o
      → Indexed (insert id v' m) o
  Indexed-rewrite id v v' m o found same h = record {
    owners = λ w i. ground (arith, h.owners w i, found, same, get?-insert i id v' m);
    distinct = insert-Distinct id v' m h.distinct;
    distinct_owners = h.distinct_owners;
  }

  pub Indexed-drop :
      (id : ℕ) (v : V) (m : Map ℕ V) (o : Map (ℕ × ℕ) (Unit {0}))
      → get? id m ≡ some v
      → Indexed m o
      → Indexed (remove id m) (remove (owner v, id) o)
  Indexed-drop id v m o found h = record {
    owners = λ w i. ground (
      arith,
      h.owners w i,
      found,
      get?-remove i id m h.distinct,
      get?-remove (w, i) (owner v, id) o h.distinct_owners,
    );
    distinct = remove-Distinct id m h.distinct;
    distinct_owners = remove-Distinct (owner v, id) o h.distinct_owners;
  }

  pub Indexed-move :
      (id to : ℕ) (v v' : V) (m : Map ℕ V) (o : Map (ℕ × ℕ) (Unit {0}))
      → get? id m ≡ some v
      → owner v' ≡ to
      → Indexed m o
      → Indexed (insert id v' m) (insert (to, id) tt (remove (owner v, id) o))
  Indexed-move id to v v' m o found new h =
      let rest = remove (owner v, id) o in
      record {
        owners = λ w i. ground (
          arith,
          h.owners w i,
          found,
          new,
          get?-insert i id v' m,
          get?-insert (w, i) (to, id) tt rest,
          get?-remove (w, i) (owner v, id) o h.distinct_owners,
        );
        distinct = insert-Distinct id v' m h.distinct;
        distinct_owners =
            insert-Distinct (to, id) tt rest (remove-Distinct (owner v, id) o h.distinct_owners);
      }
