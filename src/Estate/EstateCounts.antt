-- ===== src/Estate/EstateCounts.antt =====
-- pallets/estate/src/lib.rs: the counts across the calls on estates.
use versus_project_metaverse.Prelude.{
  ◌*◌, ◌≡◌, false, List, ◌++◌, ensure, ok_or, other, checked_sub, ok, arith, >>=-eq_ok,
  ok-injective, subst, nat_eq, pair_eq,
}
use versus_project_metaverse.Prelude.Maps.{remove}
use versus_project_metaverse.Prelude.Keys.{
  insert-Below, remove-Below, get?-Below, size-insert, size-remove,
}
use versus_project_metaverse.Prelude.Lists.{length}
use versus_project_metaverse.Primitives.{
  AccountId, MetaverseId, Coordinate, EstateId, EstateInfo, existing, non_existing_with_estate,
  removed_from_estate,
}
use versus_project_metaverse.Estate.Types
use versus_project_metaverse.Estate.Types.{Config, State}
use versus_project_metaverse.Estate.Coordinates.{verify_land_unit_for_estate}
use versus_project_metaverse.Estate.Lands
use versus_project_metaverse.Estate.Lands.{mint_land_unit, mint_land_units}
use versus_project_metaverse.Estate.Estates
use versus_project_metaverse.Estate.Estates.{add_units, remove_units, mint_estate_token, percent_of}
use versus_project_metaverse.Estate.Frames.{mint_land_units-Adds, add_units-Adds, remove_units-Adds}
use versus_project_metaverse.Estate.Counts.{
  IsCounted, Counts, update_estate_information-Counts, owned_estate-exists, new_estate-IsCounted,
  add_count-IsCounted, collect_storage_fee-ledger, collect_network_fee-ledger,
}

module _ (c : Config) where
  pub mint_estate-Counts :
      (o : c.Origin) (who : AccountId) (m : MetaverseId) (ps : List Coordinate) (s s' : State c)
      → Estates.mint_estate c o who m ps s ≡ ok s'
      → IsCounted s
      → Counts s s'
  unfolding Estates.mint_estate
  mint_estate-Counts o who m ps s s' e h =
      let (_, _, e0) = >>=-eq_ok (c.ensure_root o) _ e in
      let ((id, t), fresh, e1) = >>=-eq_ok (Lands.get_new_estate_id c s) _ e0 in
      let ((owner, u), minted, e2) = >>=-eq_ok (mint_estate_token c m who id t) _ e1 in
      let (v, done, e3) =
        >>=-eq_ok (mint_land_units c m owner (c.estate_account id) non_existing_with_estate ps u) _
          e2 in
      let (w, counted, e4) = >>=-eq_ok (Lands.set_total_land_unit c (length ps) false v) _ e3 in
      let new = new_estate-IsCounted c m who id owner s t u fresh minted h in
      let adds =
        mint_land_units-Adds c m owner (c.estate_account id) non_existing_with_estate ps u v
          new.0.distinct done in
      let counts =
        add_count-IsCounted c (1 * length ps) (length ps) u v w (omega arith) new.0 adds counted in
      let kept =
        update_estate_information-Counts c id m owner ps w s' e4
          (ground (arith, adds.0, new.1, counts.1)) (ground (arith, adds.0, new.2, counts.1))
          counts.0 in
      (kept.0, ground (arith, kept.1, counts.1, adds.0, new.3))

  pub create_estate-Counts :
      (o : c.Origin) (m : MetaverseId) (ps : List Coordinate) (s s' : State c)
      → Estates.create_estate c o m ps s ≡ ok s'
      → IsCounted s
      → Counts s s'
  unfolding Estates.create_estate
  create_estate-Counts o m ps s s' e h =
      let (who, _, e0) = >>=-eq_ok (c.ensure_signed o) _ e in
      let (valid, _, e1) = >>=-eq_ok (verify_land_unit_for_estate ps) _ e0 in
      let (_, _, e2) = >>=-eq_ok (ensure valid Types.coordinates_for_estate_is_not_valid) _ e1 in
      let (r, charged, e3) = >>=-eq_ok (Lands.collect_network_fee c who s) _ e2 in
      let start = collect_network_fee-ledger c who s r charged in
      let ((id, t), fresh, e4) = >>=-eq_ok (Lands.get_new_estate_id c r) _ e3 in
      let ((owner, u), minted, e5) = >>=-eq_ok (mint_estate_token c m who id t) _ e4 in
      let (v, paid, e6) =
        >>=-eq_ok (Lands.collect_storage_fee c who (percent_of (length ps)) u) _ e5 in
      let (w, done, e7) =
        >>=-eq_ok (mint_land_units c m owner (c.estate_account id) (existing who) ps v) _ e6 in
      let new = new_estate-IsCounted c m who id owner r t u fresh minted (ground (arith, start)) in
      let fee = collect_storage_fee-ledger c who (percent_of (length ps)) u v paid in
      let adds =
        mint_land_units-Adds c m owner (c.estate_account id) (existing who) ps v w
          (ground (arith, new.0, fee)) done in
      let kept =
        update_estate_information-Counts c id m owner ps w s' e7
          (ground (arith, new.1, fee, adds.0)) (ground (arith, new.2, fee, adds.0))
          (ground (arith, new.0, fee, adds.0, adds.1, adds.2)) in
      (kept.0, ground (arith, kept.1, adds.0, fee, new.3, start))

  pub dissolve_estate-Counts :
      (o : c.Origin) (id : EstateId) (s s' : State c)
      → Estates.dissolve_estate c o id s ≡ ok s'
      → IsCounted s
      → Counts s s'
  unfolding Estates.dissolve_estate
  dissolve_estate-Counts o id s s' e h =
      let (who, _, e0) = >>=-eq_ok (c.ensure_signed o) _ e in
      let ((owner, info), owned, e1) = >>=-eq_ok (Estates.owned_estate c who id s) _ e0 in
      let (asset, _, e2) = >>=-eq_ok (Lands.token_of owner) _ e1 in
      let (count, one_less, e3) =
        >>=-eq_ok (ok_or (checked_sub s.all_estates_count 1) other) _ e2 in
      let r : State c = record s {
        nfts = c.burn_nft who asset s.nfts;
        estates = remove id s.estates;
        all_estates_count = count;
      } in
      let (t, paid, e4) =
        >>=-eq_ok (Lands.collect_storage_fee c who (percent_of (length info.land_units)) r) _ e3 in
      let fee = collect_storage_fee-ledger c who (percent_of (length info.land_units)) r t paid in
      let (u, done, e5) =
        >>=-eq_ok
          (mint_land_units c info.metaverse_id owner who removed_from_estate info.land_units t) _
          e4 in
      let adds =
        mint_land_units-Adds c info.metaverse_id owner who removed_from_estate info.land_units t u
          (ground (arith, h.distinct, fee)) done in
      let exists = owned_estate-exists c who id owner info s owned in
      (
        subst (λ x. IsCounted x) (ok-injective e5)
            (record {
              units = ground (arith, fee, adds.0, adds.1);
              distinct = adds.2;
              estates = ground (arith, fee, adds.0, one_less, exists, size-remove id s.estates);
              estate_ids =
                  ground
                    (arith, fee, adds.0, remove-Below s.next_estate_id id s.estates h.estate_ids);
              blocks = ground (arith, fee, adds.0);
              block_ids = ground (arith, fee, adds.0);
            }),
        ground (arith, e5, fee, adds.0),
      )

  pub add_land_unit_to_estate-Counts :
      (o : c.Origin) (id : EstateId) (ps : List Coordinate) (s s' : State c)
      → Estates.add_land_unit_to_estate c o id ps s ≡ ok s'
      → IsCounted s
      → Counts s s'
  unfolding Estates.add_land_unit_to_estate
  add_land_unit_to_estate-Counts o id ps s s' e h =
      let (who, _, e0) = >>=-eq_ok (c.ensure_signed o) _ e in
      let ((owner, info), owned, e1) = >>=-eq_ok (Estates.owned_estate c who id s) _ e0 in
      let (t, paid, e2) =
        >>=-eq_ok (Lands.collect_storage_fee c who (percent_of (length ps)) s) _ e1 in
      let fee = collect_storage_fee-ledger c who (percent_of (length ps)) s t paid in
      let (u, done, e3) =
        >>=-eq_ok (add_units c who info.metaverse_id owner (c.estate_account id) ps t) _ e2 in
      let adds =
        add_units-Adds c who info.metaverse_id owner (c.estate_account id) ps t u
          (ground (arith, h.distinct, fee)) done in
      let exists = owned_estate-exists c who id owner info s owned in
      let more : EstateInfo = record info { land_units = info.land_units ++ ps } in
      ground (
        arith,
        exists,
        fee,
        adds.0,
        adds.1,
        adds.2,
        e3,
        size-insert id more s.estates,
        get?-Below s.next_estate_id id info s.estates exists h.estate_ids,
        insert-Below s.next_estate_id id more s.estates,
      )

  pub remove_land_unit_from_estate-Counts :
      (o : c.Origin) (id : EstateId) (ps : List Coordinate) (s s' : State c)
      → Estates.remove_land_unit_from_estate c o id ps s ≡ ok s'
      → IsCounted s
      → Counts s s'
  unfolding Estates.remove_land_unit_from_estate
  remove_land_unit_from_estate-Counts o id ps s s' e h =
      let (who, _, e0) = >>=-eq_ok (c.ensure_signed o) _ e in
      let ((owner, info), owned, e1) = >>=-eq_ok (Estates.owned_estate c who id s) _ e0 in
      let (t, paid, e2) =
        >>=-eq_ok (Lands.collect_storage_fee c who (percent_of (length ps)) s) _ e1 in
      let fee = collect_storage_fee-ledger c who (percent_of (length ps)) s t paid in
      let ((left, u), done, e3) =
        >>=-eq_ok (remove_units c who info.metaverse_id owner ps info.land_units t) _ e2 in
      let adds =
        remove_units-Adds c who info.metaverse_id owner ps info.land_units left t u
          (ground (arith, h.distinct, fee)) done in
      let exists = owned_estate-exists c who id owner info s owned in
      let fewer : EstateInfo = record info { land_units = left } in
      ground (
        arith,
        exists,
        fee,
        adds.0,
        adds.1,
        adds.2,
        e3,
        size-insert id fewer s.estates,
        get?-Below s.next_estate_id id info s.estates exists h.estate_ids,
        insert-Below s.next_estate_id id fewer s.estates,
      )
