-- ===== src/Estate/Frames.antt =====
-- pallets/estate/src/lib.rs: what the functions on land units leave alone.
use versus_project_metaverse.Prelude.{
  ℕ, ◌+◌, ◌*◌, ok_or, ◌≡◌, some, List, [], ◌∷◌, ok, arith, >>=-eq_ok, inl, inr, Outcome-cases,
  Option-cases, nat_eq, pair_eq,
}
use versus_project_metaverse.Prelude.Maps.{
  get?, get?-remove_self, remove, Distinct, insert-Distinct, remove-Distinct,
}
use versus_project_metaverse.Prelude.Keys.{size, size-insert, size-remove}
use versus_project_metaverse.Prelude.Lists.{length, remove_first}
use versus_project_metaverse.Primitives.{
  AccountId, MetaverseId, Coordinate, OwnerId, account, token, LandUnitStatus, non_existing,
  existing, non_existing_with_estate, removed_from_estate,
}
use versus_project_metaverse.Estate.Types.{Config, State}
use versus_project_metaverse.Estate.Lands.{mint_existing, mint_land_unit, mint_land_units}
use versus_project_metaverse.Estate.Estates.{add_units, remove_units}

-- Nothing but the land units and the tokens differs.
abbrev pub KeepsEstates : {c : Config} → State c → State c → Type 0
KeepsEstates s s' = s' ≡ record s { nfts = s'.nfts; land_units = s'.land_units }

-- The number of units that a unit of this status adds.
abbrev pub added : LandUnitStatus → ℕ
added non_existing = 1
added (existing _) = 0
added non_existing_with_estate = 1
added removed_from_estate = 0

-- Nothing but the land units and the tokens differs, and `n` units more are recorded, none
-- twice.
abbrev pub Adds : {c : Config} → ℕ → State c → State c → Type 0
Adds n s s' =
    KeepsEstates s s' × (size s'.land_units ≡ size s.land_units + n) × Distinct s'.land_units

module _ (c : Config) where
  mint_existing-Adds :
      (m : MetaverseId) (o : OwnerId) (p : Coordinate) (a : AccountId) (unit_owner : OwnerId)
      (s s' : State c)
      → Distinct s.land_units
      → get? (m, p) s.land_units ≡ some unit_owner
      → mint_existing c m o p a unit_owner s ≡ ok s'
      → Adds 0 s s'
  unfolding mint_existing
  mint_existing-Adds m o p a (account _) s s' d found e = ground arith
  mint_existing-Adds m o p a (token i j) s s' d found e =
      ground (arith, size-insert (m, p) o s.land_units, insert-Distinct (m, p) o s.land_units d)

  pub mint_land_unit-Adds :
      (m : MetaverseId) (o o' : OwnerId) (to : AccountId) (p : Coordinate) (status : LandUnitStatus)
      (s s' : State c)
      → Distinct s.land_units
      → mint_land_unit c m o to p status s ≡ ok (o', s')
      → Adds (added status) s s'
  unfolding mint_land_unit
  mint_land_unit-Adds m o o' to p (existing a) s s' d e =
      elim (Option-cases (get? (m, p) s.land_units)) [
        | inl missing ↦ ground (arith, missing)
        | inr (unit_owner, found) ↦ elim (Outcome-cases (mint_existing c m o p a unit_owner s)) [
          | inl (t, done) ↦
              let kept = mint_existing-Adds m o p a unit_owner s t d found done in
              ground (arith, found, done, kept)
          | inr failed ↦ ground (arith, found, failed)
        ]
      ]
  mint_land_unit-Adds m o o' to p non_existing s s' d e =
      ground (arith, size-insert (m, p) o' s.land_units, insert-Distinct (m, p) o' s.land_units d)
  mint_land_unit-Adds m o o' to p non_existing_with_estate s s' d e =
      ground (arith, size-insert (m, p) o s.land_units, insert-Distinct (m, p) o s.land_units d)
  mint_land_unit-Adds m o o' to p removed_from_estate s s' d e = ground (
    arith,
    size-insert (m, p) o' (remove (m, p) s.land_units),
    size-remove (m, p) s.land_units,
    get?-remove_self (m, p) s.land_units d,
    insert-Distinct (m, p) o' (remove (m, p) s.land_units) (remove-Distinct (m, p) s.land_units d),
  )

  Adds-trans : (n k : ℕ) (s t u : State c) → Adds n s t → Adds k t u → Adds (n + k) s u
  Adds-trans n k s t u p q = ground (arith, p.0, p.1, p.2, q.0, q.1, q.2)

  pub mint_land_units-Adds :
      (m : MetaverseId) (o : OwnerId) (to : AccountId) (status : LandUnitStatus)
      (ps : List Coordinate) (s s' : State c)
      → Distinct s.land_units
      → mint_land_units c m o to status ps s ≡ ok s'
      → Adds (added status * length ps) s s'
  unfolding mint_land_units length
  mint_land_units-Adds m o to status [] s s' d e = ground arith
  mint_land_units-Adds m o to status (p ∷ ps) s s' d e =
      let ((o', t), one, e') = >>=-eq_ok (mint_land_unit c m o to p status s) _ e in
      let first = mint_land_unit-Adds m o o' to p status s t d one in
      let rest = mint_land_units-Adds m o to status ps t s' first.2 e' in
      let n = length ps in
      ground (arith, Adds-trans (added status) (added status * n) s t s' first rest)

  pub add_units-Adds :
      (who : AccountId) (m : MetaverseId) (o : OwnerId) (to : AccountId) (ps : List Coordinate)
      (s s' : State c)
      → Distinct s.land_units
      → add_units c who m o to ps s ≡ ok s'
      → Adds 0 s s'
  unfolding add_units
  add_units-Adds who m o to [] s s' d e = ground arith
  add_units-Adds who m o to (p ∷ ps) s s' d e =
      elim (Outcome-cases (mint_land_unit c m o to p (existing who) s)) [
        | inl ((o', t), one) ↦
            let first = mint_land_unit-Adds m o o' to p (existing who) s t d one in
            let e' : add_units c who m o to ps t ≡ ok s' = ground (arith, one) in
            Adds-trans 0 0 s t s' first (add_units-Adds who m o to ps t s' first.2 e')
        | inr failed ↦ ground (arith, failed)
      ]

  pub remove_units-Adds :
      (who : AccountId) (m : MetaverseId) (o : OwnerId) (ps left left' : List Coordinate)
      (s s' : State c)
      → Distinct s.land_units
      → remove_units c who m o ps left s ≡ ok (left', s')
      → Adds 0 s s'
  unfolding remove_units
  remove_units-Adds who m o [] left left' s s' d e = ground arith
  remove_units-Adds who m o (p ∷ ps) left left' s s' d e =
      let ((o', t), one, e1) = >>=-eq_ok (mint_land_unit c m o who p removed_from_estate s) _ e in
      let (fewer, found, e2) = >>=-eq_ok (ok_or (remove_first p left) _) _ e1 in
      let first = mint_land_unit-Adds m o o' who p removed_from_estate s t d one in
      Adds-trans 0 0 s t s' first (remove_units-Adds who m o ps fewer left' t s' first.2 e2)
