-- ===== src/Estate/Estates.antt =====
-- pallets/estate/src/lib.rs: estates, which gather land units under one token.
use versus_project_metaverse.Prelude.{
  ℕ, ◌%◌, ◌^◌, false, not, List, [], ◌∷◌, ◌++◌, ok, ◌>>=◌, ◌>>◌, ensure, ok_or, other, u32_max,
  u64_max, checked_add, checked_sub, saturating_mul, ◌==◌, nat_eq, pair_eq, module_error,
}
use versus_project_metaverse.Prelude.Maps.{get?, insert, remove, contains_key}
use versus_project_metaverse.Prelude.Lists.{length, remove_first}
use versus_project_metaverse.Primitives.{
  AccountId, EstateId, MetaverseId, Coordinate, EstateInfo, OwnerId, token, existing,
  non_existing_with_estate, removed_from_estate, nft,
}
use versus_project_metaverse.Estate.Types
use versus_project_metaverse.Estate.Types.{Config, State, Result, deposit_event}
use versus_project_metaverse.Estate.Coordinates.{
  get_estate_token_properties, verify_land_unit_for_estate,
}
use versus_project_metaverse.Estate.Lands.{
  token_of, collect_storage_fee, collect_network_fee, check_if_land_or_estate_owner,
  get_new_estate_id, set_total_land_unit, mint_land_unit, mint_land_units,
}

-- `100u32.saturating_mul(coordinates.len() as u32)`
abbrev pub percent_of : ℕ → ℕ
percent_of n = saturating_mul u32_max 100 (n % 2 ^ 32)

module _ (c : Config) where
  unfoldable pub update_estate_information :
      EstateId → MetaverseId → OwnerId → List Coordinate → State c → Result (State c)
  update_estate_information new_estate_id metaverse_id owner coordinates s = do
    count ← ok_or (checked_add u64_max s.all_estates_count 1) other
    let estate_info : EstateInfo = record { metaverse_id = metaverse_id; land_units = coordinates }
    ok (
        deposit_event (Types.new_estate_minted new_estate_id owner metaverse_id coordinates)
          (record s {
            all_estates_count = count;
            estates = insert new_estate_id estate_info s.estates;
            estate_owner = insert new_estate_id owner s.estate_owner;
          }))

  -- A new token of the estate class for a new estate.
  unfoldable pub mint_estate_token :
      MetaverseId → AccountId → EstateId → State c → Result (OwnerId × State c)
  mint_estate_token metaverse_id to estate_id s = do
    let properties = get_estate_token_properties metaverse_id estate_id
    class_id ← c.get_metaverse_estate_class metaverse_id s.metaverses
    (token_id, nfts) ← c.mint_token to class_id properties.0 properties.1 s.nfts
    ok (token class_id token_id, record s { nfts = nfts })

  unfoldable pub mint_estate :
      c.Origin → AccountId → MetaverseId → List Coordinate → State c → Result (State c)
  mint_estate origin beneficiary metaverse_id coordinates s = do
    _ ← c.ensure_root origin
    (estate_id, t) ← get_new_estate_id c s
    (owner, u) ← mint_estate_token metaverse_id beneficiary estate_id t
    v ←
        mint_land_units c metaverse_id owner (c.estate_account estate_id) non_existing_with_estate
          coordinates u
    w ← set_total_land_unit c (length coordinates) false v
    update_estate_information estate_id metaverse_id owner coordinates w

  unfoldable pub create_estate :
      c.Origin → MetaverseId → List Coordinate → State c → Result (State c)
  create_estate origin metaverse_id coordinates s = do
    who ← c.ensure_signed origin
    valid ← verify_land_unit_for_estate coordinates
    ensure valid Types.coordinates_for_estate_is_not_valid
    charged ← collect_network_fee c who s
    (estate_id, t) ← get_new_estate_id c charged
    (owner, u) ← mint_estate_token metaverse_id who estate_id t
    v ← collect_storage_fee c who (percent_of (length coordinates)) u
    w ←
        mint_land_units c metaverse_id owner (c.estate_account estate_id) (existing who) coordinates
          v
    update_estate_information estate_id metaverse_id owner coordinates w

  unfoldable pub do_transfer_estate : EstateId → AccountId → AccountId → State c → Result (State c)
  do_transfer_estate estate_id from to s = do
    ensure (not (from == to)) Types.already_own_the_estate
    owner ← ok_or (get? estate_id s.estate_owner) (module_error Types.no_permission)
    _ ← ok_or (get? estate_id s.estates) (module_error Types.estate_does_not_exist)
    ensure (not (contains_key estate_id s.estate_leases)) Types.estate_is_already_leased
    (class_id, token_id) ← token_of owner
    ensure (not (c.check_item_in_auction (nft class_id token_id) s.auctions))
        Types.estate_already_in_auction
    ensure (check_if_land_or_estate_owner c from owner s) Types.no_permission
    ok (
        deposit_event (Types.transferred_estate estate_id from to)
          (record s { nfts = c.transfer_nft from to (class_id, token_id) s.nfts }))

  unfoldable pub transfer_estate : c.Origin → AccountId → EstateId → State c → Result (State c)
  transfer_estate origin to estate_id s = do
    who ← c.ensure_signed origin
    do_transfer_estate estate_id who to s

  -- The guards that dissolve_estate, add_land_unit_to_estate and remove_land_unit_from_estate share:
  -- the token of the estate, held by `who` and in no auction, and what is recorded of the estate.
  unfoldable pub owned_estate : AccountId → EstateId → State c → Result (OwnerId × EstateInfo)
  owned_estate who estate_id s = do
    owner ← ok_or (get? estate_id s.estate_owner) (module_error Types.no_permission)
    (class_id, token_id) ← token_of owner
    ensure (not (c.check_item_in_auction (nft class_id token_id) s.auctions))
        Types.estate_already_in_auction
    ensure (check_if_land_or_estate_owner c who owner s) Types.no_permission
    info ← ok_or (get? estate_id s.estates) (module_error Types.estate_does_not_exist)
    ok (owner, info)

  unfoldable pub dissolve_estate : c.Origin → EstateId → State c → Result (State c)
  unfolding owned_estate
  dissolve_estate origin estate_id s = do
    who ← c.ensure_signed origin
    (owner, info) ← owned_estate who estate_id s
    asset ← token_of owner
    count ← ok_or (checked_sub s.all_estates_count 1) other
    t ← collect_storage_fee c who (percent_of (length info.land_units)) (record s {
      nfts = c.burn_nft who asset s.nfts;
      estates = remove estate_id s.estates;
      all_estates_count = count;
    })
    u ← mint_land_units c info.metaverse_id owner who removed_from_estate info.land_units t
    ok (
        deposit_event (Types.estate_destroyed estate_id owner)
          (record u { estate_owner = remove estate_id u.estate_owner }))

  -- The loop of add_land_unit_to_estate.
  unfoldable pub add_units :
      AccountId → MetaverseId → OwnerId → AccountId → List Coordinate → State c → Result (State c)
  add_units who metaverse_id owner to [] s = ok s
  add_units who metaverse_id owner to (coordinate ∷ rest) s = do
    unit_owner ←
        ok_or (get? (metaverse_id, coordinate) s.land_units)
          (module_error Types.undeployed_land_block_not_found)
    ensure (check_if_land_or_estate_owner c who unit_owner s) Types.land_unit_does_not_exist
    (_, t) ← mint_land_unit c metaverse_id owner to coordinate (existing who) s
    add_units who metaverse_id owner to rest t

  unfoldable pub add_land_unit_to_estate :
      c.Origin → EstateId → List Coordinate → State c → Result (State c)
  unfolding owned_estate
  add_land_unit_to_estate origin estate_id land_units s = do
    who ← c.ensure_signed origin
    (owner, info) ← owned_estate who estate_id s
    t ← collect_storage_fee c who (percent_of (length land_units)) s
    u ← add_units who info.metaverse_id owner (c.estate_account estate_id) land_units t
    now ← ok_or (get? estate_id u.estates) (module_error Types.estate_does_not_exist)
    ok (
        deposit_event (Types.land_unit_added estate_id owner land_units) (record u {
          estates =
              insert estate_id (record now { land_units = now.land_units ++ land_units }) u.estates;
        }))

  -- The loop of remove_land_unit_from_estate, with the units that are left of the estate.
  unfoldable pub remove_units :
      AccountId
      → MetaverseId
      → OwnerId
      → List Coordinate
      → List Coordinate
      → State c
      → Result (List Coordinate × State c)
  remove_units who metaverse_id owner [] left s = ok (left, s)
  remove_units who metaverse_id owner (coordinate ∷ rest) left s = do
    (_, t) ← mint_land_unit c metaverse_id owner who coordinate removed_from_estate s
    fewer ← ok_or (remove_first coordinate left) (module_error Types.land_unit_is_not_available)
    remove_units who metaverse_id owner rest fewer t

  unfoldable pub remove_land_unit_from_estate :
      c.Origin → EstateId → List Coordinate → State c → Result (State c)
  unfolding owned_estate
  remove_land_unit_from_estate origin estate_id land_units s = do
    who ← c.ensure_signed origin
    (owner, info) ← owned_estate who estate_id s
    t ← collect_storage_fee c who (percent_of (length land_units)) s
    (left, u) ← remove_units who info.metaverse_id owner land_units info.land_units t
    ok (
        deposit_event (Types.land_units_removed estate_id owner land_units)
          (record u { estates = insert estate_id (record info { land_units = left }) u.estates }))
