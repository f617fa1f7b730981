-- ===== src/Estate/Handler.antt =====
-- pallets/estate/src/lib.rs: what the pallet answers to other pallets as MetaverseLandTrait and as
-- Estate, and remove_all_estate_storage.
use versus_project_metaverse.Prelude.{
  ℕ, Bool, Option, none, some, List, [], ◌∷◌, ◌&&◌, ok, if◌then◌else◌, ltb, ◌==◌, nat_eq, pair_eq,
}
use versus_project_metaverse.Prelude.Maps.{Map, get?, contains_key}
use versus_project_metaverse.Prelude.Lists.{length}
use versus_project_metaverse.Primitives.{AccountId, EstateId, MetaverseId, Coordinate, OwnerId}
use versus_project_metaverse.Estate.Types.{Config, State, Result}
use versus_project_metaverse.Estate.Lands.{check_if_land_or_estate_owner}

module _ (c : Config) where
  -- The units of one metaverse in `m` whose token `who` holds in `s`.
  unfoldable pub land_units_of :
      AccountId → MetaverseId → Map (MetaverseId × Coordinate) OwnerId → State c → List Coordinate
  land_units_of who metaverse_id [] s = []
  land_units_of who metaverse_id (((id, coordinate), owner) ∷ m) s =
      let rest = land_units_of who metaverse_id m s in
      if id == metaverse_id && check_if_land_or_estate_owner c who owner s
      then coordinate ∷ rest
      else rest

  unfoldable pub get_user_land_units : AccountId → MetaverseId → State c → List Coordinate
  unfolding land_units_of
  get_user_land_units who metaverse_id s = land_units_of who metaverse_id s.land_units s

  unfoldable pub is_user_own_metaverse_land : AccountId → MetaverseId → State c → Bool
  unfolding get_user_land_units
  is_user_own_metaverse_land who metaverse_id s =
      ltb 0 (length (get_user_land_units who metaverse_id s))

  unfoldable pub check_landunit : MetaverseId → Coordinate → State c → Result Bool
  check_landunit metaverse_id coordinate s =
      ok (contains_key (metaverse_id, coordinate) s.land_units)

  unfoldable pub check_estate : EstateId → State c → Result Bool
  check_estate estate_id s = ok (contains_key estate_id s.estates)

  unfoldable pub get_total_land_units : Option EstateId → State c → ℕ
  get_total_land_units none s = s.all_land_units_count
  get_total_land_units (some id) s = elim (get? id s.estates) [
    | none ↦ 0
    | some info ↦ length info.land_units
  ]

  unfoldable pub get_total_undeploy_land_units : State c → ℕ
  get_total_undeploy_land_units s = s.total_undeployed_land_unit

  unfoldable pub is_estate_leasor : AccountId → EstateId → State c → Result Bool
  is_estate_leasor leasor estate_id s = ok (contains_key (leasor, estate_id) s.estate_leasors)

  unfoldable pub is_estate_leased : EstateId → State c → Result Bool
  is_estate_leased estate_id s = ok (contains_key estate_id s.estate_leases)

  unfoldable pub remove_all_estate_storage : State c → State c
  remove_all_estate_storage s = record s {
    land_units = [];
    estates = [];
    estate_owner = [];
    next_estate_id = 1;
    all_land_units_count = 0;
    all_estates_count = 0;
  }
