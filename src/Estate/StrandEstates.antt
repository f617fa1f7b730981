-- ===== src/Estate/StrandEstates.antt =====
-- pallets/estate/src/lib.rs: an estate without an owner across the calls on estates.
use versus_project_metaverse.Prelude.{
  >>=-eq_ok, List, Option, Option-cases, arith, checked_sub, ensure, false, inl, inr, nat_eq, ok,
  ok_or, other, pair_eq, ◌<◌, ◌≡◌,
}
use versus_project_metaverse.Prelude.Maps.{get?, get?-insert, get?-remove_ne, remove}
use versus_project_metaverse.Prelude.Keys.{get?-Below}
use versus_project_metaverse.Prelude.Lists.{length}
use versus_project_metaverse.Primitives.{
  AccountId, Coordinate, EstateId, LeaseContract, MetaverseId, OwnerId, existing,
  non_existing_with_estate, removed_from_estate,
}
use versus_project_metaverse.Estate.Types.{Config, State}
use versus_project_metaverse.Estate.Types
use versus_project_metaverse.Estate.Coordinates.{verify_land_unit_for_estate}
use versus_project_metaverse.Estate.Lands.{mint_land_units}
use versus_project_metaverse.Estate.Lands
use versus_project_metaverse.Estate.Estates.{add_units, mint_estate_token, percent_of, remove_units}
use versus_project_metaverse.Estate.Estates
use versus_project_metaverse.Estate.Frames.{add_units-Adds, mint_land_units-Adds, remove_units-Adds}
use versus_project_metaverse.Estate.Counts.{
  IsCounted, collect_network_fee-ledger, collect_storage_fee-ledger, new_estate-IsCounted,
  owned_estate-exists,
}
use versus_project_metaverse.Estate.Strands.{IsStranded, KeepsOwners}

module _ (c : Config) where
  -- A new estate gets the next id: what has a smaller one stays as it is.
  new_estate-IsStranded :
      (m : MetaverseId) (who : AccountId) (id j : EstateId) (owner : OwnerId)
      (lease : Option LeaseContract) (ps : List Coordinate) (s t u v s' : State c)
      → Lands.get_new_estate_id c s ≡ ok (id, t)
      → mint_estate_token c m who id t ≡ ok (owner, u)
      → KeepsOwners u v
      → Estates.update_estate_information c id m owner ps v ≡ ok s'
      → IsStranded j lease s
      → IsStranded j lease s'
  unfolding Lands.get_new_estate_id Estates.mint_estate_token Estates.update_estate_information
  new_estate-IsStranded m who id j owner lease ps s t u v s' fresh minted kept done h =
      ground (arith, get?-insert j id owner v.estate_owner)

  pub mint_estate-IsStranded :
      (o : c.Origin) (who : AccountId) (m : MetaverseId) (ps : List Coordinate) (j : EstateId)
      (lease : Option LeaseContract) (s s' : State c)
      → Estates.mint_estate c o who m ps s ≡ ok s'
      → IsCounted s
      → IsStranded j lease s
      → IsStranded j lease s'
  unfolding Estates.mint_estate Lands.set_total_land_unit
  mint_estate-IsStranded o who m ps j lease s s' e n h =
      let (_, _, e0) = >>=-eq_ok (c.ensure_root o) _ e in
      let ((id, t), fresh, e1) = >>=-eq_ok (Lands.get_new_estate_id c s) _ e0 in
      let ((owner, u), minted, e2) = >>=-eq_ok (mint_estate_token c m who id t) _ e1 in
      let (v, done, e3) =
        >>=-eq_ok (mint_land_units c m owner (c.estate_account id) non_existing_with_estate ps u) _
          e2 in
      let (w, counted, e4) = >>=-eq_ok (Lands.set_total_land_unit c (length ps) false v) _ e3 in
      let new = new_estate-IsCounted c m who id owner s t u fresh minted n in
      let adds =
        mint_land_units-Adds c m owner (c.estate_account id) non_existing_with_estate ps u v
          new.0.distinct done in
      let kept : KeepsOwners u w = ground (arith, adds.0, counted) in
      new_estate-IsStranded m who id j owner lease ps s t u w s' fresh minted kept e4 h

  pub create_estate-IsStranded :
      (o : c.Origin) (m : MetaverseId) (ps : List Coordinate) (j : EstateId)
      (lease : Option LeaseContract) (s s' : State c)
      → Estates.create_estate c o m ps s ≡ ok s'
      → IsCounted s
      → IsStranded j lease s
      → IsStranded j lease s'
  unfolding Estates.create_estate
  create_estate-IsStranded o m ps j lease s s' e n h =
      let (who, _, e0) = >>=-eq_ok (c.ensure_signed o) _ e in
      let (valid, _, e1) = >>=-eq_ok (verify_land_unit_for_estate ps) _ e0 in
      let (_, _, e2) = >>=-eq_ok (ensure valid Types.coordinates_for_estate_is_not_valid) _ e1 in
      let (r, charged, e3) = >>=-eq_ok (Lands.collect_network_fee c who s) _ e2 in
      let start = collect_network_fee-ledger c who s r charged in
      let ((id, t), fresh, e4) = >>=-eq_ok (Lands.get_new_estate_id c r) _ e3 in
      let ((owner, u), minted, e5) = >>=-eq_ok (mint_estate_token c m who id t) _ e4 in
      let (v, paid, e6) =
        >>=-eq_ok (Lands.collect_storage_fee c who (percent_of (length ps)) u) _ e5 in
      let (w, done, e7) =
        >>=-eq_ok (mint_land_units c m owner (c.estate_account id) (existing who) ps v) _ e6 in
      let new = new_estate-IsCounted c m who id owner r t u fresh minted (ground (arith, start)) in
      let fee = collect_storage_fee-ledger c who (percent_of (length ps)) u v paid in
      let adds =
        mint_land_units-Adds c m owner (c.estate_account id) (existing who) ps v w
          (ground (arith, new.0, fee)) done in
      let kept : KeepsOwners u w = ground (arith, adds.0, fee) in
      new_estate-IsStranded m who id j owner lease ps r t u w s' fresh minted kept e7
        (ground (arith, start))

  pub add_land_unit_to_estate-KeepsOwners :
      (o : c.Origin) (id : EstateId) (ps : List Coordinate) (s s' : State c)
      → Estates.add_land_unit_to_estate c o id ps s ≡ ok s'
      → IsCounted s
      → KeepsOwners s s'
  unfolding Estates.add_land_unit_to_estate
  add_land_unit_to_estate-KeepsOwners o id ps s s' e h =
      let (who, _, e0) = >>=-eq_ok (c.ensure_signed o) _ e in
      let ((owner, info), owned, e1) = >>=-eq_ok (Estates.owned_estate c who id s) _ e0 in
      let (t, paid, e2) =
        >>=-eq_ok (Lands.collect_storage_fee c who (percent_of (length ps)) s) _ e1 in
      let fee = collect_storage_fee-ledger c who (percent_of (length ps)) s t paid in
      let (u, done, e3) =
        >>=-eq_ok (add_units c who info.metaverse_id owner (c.estate_account id) ps t) _ e2 in
      let adds =
        add_units-Adds c who info.metaverse_id owner (c.estate_account id) ps t u
          (ground (arith, h.distinct, fee)) done in
      ground (arith, fee, adds.0, e3)

  pub remove_land_unit_from_estate-KeepsOwners :
      (o : c.Origin) (id : EstateId) (ps : List Coordinate) (s s' : State c)
      → Estates.remove_land_unit_from_estate c o id ps s ≡ ok s'
      → IsCounted s
      → KeepsOwners s s'
  unfolding Estates.remove_land_unit_from_estate
  remove_land_unit_from_estate-KeepsOwners o id ps s s' e h =
      let (who, _, e0) = >>=-eq_ok (c.ensure_signed o) _ e in
      let ((owner, info), owned, e1) = >>=-eq_ok (Estates.owned_estate c who id s) _ e0 in
      let (t, paid, e2) =
        >>=-eq_ok (Lands.collect_storage_fee c who (percent_of (length ps)) s) _ e1 in
      let fee = collect_storage_fee-ledger c who (percent_of (length ps)) s t paid in
      let ((left, u), done, e3) =
        >>=-eq_ok (remove_units c who info.metaverse_id owner ps info.land_units t) _ e2 in
      let adds =
        remove_units-Adds c who info.metaverse_id owner ps info.land_units left t u
          (ground (arith, h.distinct, fee)) done in
      ground (arith, fee, adds.0, e3)

  -- A dissolved estate had an owner and was there; its owner's entry is removed, and nothing else is
  -- of the owners, the next id and the leases.
  pub dissolve_estate_writes :
      (o : c.Origin) (id : EstateId) (s s' : State c)
      → Estates.dissolve_estate c o id s ≡ ok s'
      → IsCounted s
      → (id < s.next_estate_id)
        × (s'.estate_owner ≡ remove id s.estate_owner)
        × (s'.next_estate_id ≡ s.next_estate_id)
        × (s'.estate_leases ≡ s.estate_leases)
  unfolding Estates.dissolve_estate
  dissolve_estate_writes o id s s' e h =
      let (who, _, e0) = >>=-eq_ok (c.ensure_signed o) _ e in
      let ((owner, info), owned, e1) = >>=-eq_ok (Estates.owned_estate c who id s) _ e0 in
      let (asset, _, e2) = >>=-eq_ok (Lands.token_of owner) _ e1 in
      let (count, _, e3) = >>=-eq_ok (ok_or (checked_sub s.all_estates_count 1) other) _ e2 in
      let r : State c = record s {
        nfts = c.burn_nft who asset s.nfts;
        estates = remove id s.estates;
        all_estates_count = count;
      } in
      let (t, paid, e4) =
        >>=-eq_ok (Lands.collect_storage_fee c who (percent_of (length info.land_units)) r) _ e3 in
      let fee = collect_storage_fee-ledger c who (percent_of (length info.land_units)) r t paid in
      let (u, done, e5) =
        >>=-eq_ok
          (mint_land_units c info.metaverse_id owner who removed_from_estate info.land_units t) _
          e4 in
      let adds =
        mint_land_units-Adds c info.metaverse_id owner who removed_from_estate info.land_units t u
          (ground (arith, h.distinct, fee)) done in
      let exists = owned_estate-exists c who id owner info s owned in
      (
        get?-Below s.next_estate_id id info s.estates exists h.estate_ids,
        ground (arith, e5, fee, adds.0),
        ground (arith, e5, fee, adds.0),
        ground (arith, e5, fee, adds.0),
      )

  pub dissolve_estate-IsStranded :
      (o : c.Origin) (x j : EstateId) (lease : Option LeaseContract) (s s' : State c)
      → Estates.dissolve_estate c o x s ≡ ok s'
      → IsCounted s
      → IsStranded j lease s
      → IsStranded j lease s'
  unfolding Estates.dissolve_estate Estates.owned_estate
  dissolve_estate-IsStranded o x j lease s s' e n h =
      let (_, owners, next, leases) = dissolve_estate_writes o x s s' e n in
      elim (Option-cases (get? x s.estate_owner)) [
        | inl missing ↦ absurd (ground (arith, missing))
        | inr (owner, found) ↦
            ground (arith, owners, next, leases, found, get?-remove_ne j x s.estate_owner)
      ]
