-- ===== src/Estate/Lands.antt =====
-- pallets/estate/src/lib.rs: minting and moving land units, and the counts of the pallet.
use versus_project_metaverse.Prelude.{
  ℕ, Bool, true, false, not, List, [], ◌∷◌, ok, ◌>>=◌, ◌>>◌, ensure, ok_or, other, value_or,
  u64_max, checked_add, checked_sub, ◌==◌, nat_eq, pair_eq, module_error,
}
use versus_project_metaverse.Prelude.Maps.{get?, insert, remove, contains_key}
use versus_project_metaverse.Prelude.Lists.{length}
use versus_project_metaverse.Primitives.{
  AccountId, EstateId, MetaverseId, Coordinate, OwnerId, account, token, LandUnitStatus,
  non_existing, existing, non_existing_with_estate, removed_from_estate, nft,
}
use versus_project_metaverse.Estate.Types
use versus_project_metaverse.Estate.Types.{Config, State, Result, fail, deposit_event}
use versus_project_metaverse.Estate.Coordinates.{get_land_token_properties}

-- Two tokens of one class.
abbrev pub same_class : OwnerId → ℕ → Bool
same_class (account _) class_id = false
same_class (token owner_class_id _) class_id = owner_class_id == class_id

-- `match owner_value`: an owner that is an account is refused.
unfoldable pub token_of : OwnerId → Result (ℕ × ℕ)
token_of (account _) = fail Types.invalid_owner_value
token_of (token class_id token_id) = ok (class_id, token_id)

module _ (c : Config) where
  -- `Perbill::from_percent(100u32.saturating_mul(n)) * T::StorageDepositFee::get()`, taken from
  -- `who` for the network treasury.
  unfoldable pub collect_storage_fee : AccountId → ℕ → State c → Result (State c)
  collect_storage_fee who percent s = do
    let storage_fee = c.of_percent percent c.storage_deposit_fee
    ledger ← c.transfer who c.network_treasury storage_fee s.ledger
    ok (record s { ledger = ledger })

  unfoldable pub collect_network_fee : AccountId → State c → Result (State c)
  collect_network_fee recipient s = do
    ledger ← c.transfer recipient c.network_treasury c.network_fee s.ledger
    ok (record s { ledger = ledger })

  unfoldable pub check_if_land_or_estate_owner : AccountId → OwnerId → State c → Bool
  check_if_land_or_estate_owner who (account _) s = false
  check_if_land_or_estate_owner who (token class_id token_id) s =
      value_or false (c.nft_ownership who (class_id, token_id) s.nfts)

  unfoldable pub get_new_estate_id : State c → Result (EstateId × State c)
  get_new_estate_id s = do
    next ←
        ok_or (checked_add u64_max s.next_estate_id 1) (module_error Types.no_available_estate_id)
    ok (s.next_estate_id, record s { next_estate_id = next })

  unfoldable pub set_total_land_unit : ℕ → Bool → State c → Result (State c)
  set_total_land_unit total true s = do
    count ← ok_or (checked_sub s.all_land_units_count total) other
    ok (record s { all_land_units_count = count })
  set_total_land_unit total false s = do
    count ← ok_or (checked_add u64_max s.all_land_units_count total) other
    ok (record s { all_land_units_count = count })

  -- A new token of the land class for a unit.
  unfoldable pub mint_land_token :
      MetaverseId → AccountId → Coordinate → State c → Result (OwnerId × c.Nfts)
  mint_land_token metaverse_id to coordinate s = do
    let properties = get_land_token_properties metaverse_id coordinate
    class_id ← c.get_metaverse_land_class metaverse_id s.metaverses
    (token_id, nfts) ← c.mint_token to class_id properties.0 properties.1 s.nfts
    ok (token class_id token_id, nfts)

  -- `LandUnitStatus::Existing(a)` on the owner that the unit has: its token is burnt, and the owner
  -- given takes its place.
  unfoldable pub mint_existing :
      MetaverseId → OwnerId → Coordinate → AccountId → OwnerId → State c → Result (State c)
  mint_existing metaverse_id token_owner coordinate a (account _) s = ok s
  mint_existing metaverse_id token_owner coordinate a (token class_id token_id) s = do
    owned ← c.nft_ownership a (class_id, token_id) s.nfts
    ensure owned Types.no_permission
    ensure (not (same_class token_owner class_id)) Types.land_unit_already_in_estate
    nfts ← c.set_lock_nft (class_id, token_id) false s.nfts
    ok (record s {
      nfts = c.burn_nft a (class_id, token_id) nfts;
      land_units = insert (metaverse_id, coordinate) token_owner s.land_units;
    })

  unfoldable pub mint_land_unit :
      MetaverseId
      → OwnerId
      → AccountId
      → Coordinate
      → LandUnitStatus
      → State c
      → Result (OwnerId × State c)
  unfolding mint_land_token mint_existing
  mint_land_unit metaverse_id token_owner to coordinate (existing a) s = do
    owner ←
        ok_or (get? (metaverse_id, coordinate) s.land_units)
          (module_error Types.land_unit_is_not_available)
    t ← mint_existing metaverse_id token_owner coordinate a owner s
    ok (token_owner, t)
  mint_land_unit metaverse_id token_owner to coordinate non_existing s = do
    ensure (not (contains_key (metaverse_id, coordinate) s.land_units))
        Types.land_unit_is_not_available
    (owner, nfts) ← mint_land_token metaverse_id to coordinate s
    ok (
      owner,
      record s { nfts = nfts; land_units = insert (metaverse_id, coordinate) owner s.land_units },
    )
  mint_land_unit metaverse_id token_owner to coordinate non_existing_with_estate s = do
    ensure (not (contains_key (metaverse_id, coordinate) s.land_units))
        Types.land_unit_is_not_available
    ok (
      token_owner,
      record s { land_units = insert (metaverse_id, coordinate) token_owner s.land_units },
    )
  mint_land_unit metaverse_id token_owner to coordinate removed_from_estate s = do
    ensure (contains_key (metaverse_id, coordinate) s.land_units) Types.land_unit_is_not_available
    (owner, nfts) ← mint_land_token metaverse_id to coordinate s
    let key : MetaverseId × Coordinate = (metaverse_id, coordinate)
    ok (owner, record s { nfts = nfts; land_units = insert key owner (remove key s.land_units) })

  -- The loop over the coordinates.
  unfoldable pub mint_land_units :
      MetaverseId
      → OwnerId
      → AccountId
      → LandUnitStatus
      → List Coordinate
      → State c
      → Result (State c)
  mint_land_units metaverse_id token_owner to status [] s = ok s
  mint_land_units metaverse_id token_owner to status (coordinate ∷ rest) s = do
    (_, t) ← mint_land_unit metaverse_id token_owner to coordinate status s
    mint_land_units metaverse_id token_owner to status rest t

  unfoldable pub mint_land :
      c.Origin → AccountId → MetaverseId → Coordinate → State c → Result (State c)
  mint_land origin beneficiary metaverse_id coordinate s = do
    _ ← c.ensure_root origin
    (owner, t) ←
        mint_land_unit metaverse_id (account beneficiary) beneficiary coordinate non_existing s
    u ← set_total_land_unit 1 false t
    ok (deposit_event (Types.new_land_unit_minted owner metaverse_id coordinate) u)

  unfoldable pub mint_lands :
      c.Origin → AccountId → MetaverseId → List Coordinate → State c → Result (State c)
  mint_lands origin beneficiary metaverse_id coordinates s = do
    _ ← c.ensure_root origin
    t ← mint_land_units metaverse_id (account beneficiary) beneficiary non_existing coordinates s
    u ← set_total_land_unit (length coordinates) false t
    ok (deposit_event (Types.new_lands_minted beneficiary metaverse_id coordinates) u)

  unfoldable pub do_transfer_landunit :
      Coordinate → AccountId → AccountId → MetaverseId → State c → Result (State c)
  do_transfer_landunit coordinate from to metaverse_id s = do
    owner ← ok_or (get? (metaverse_id, coordinate) s.land_units) (module_error Types.no_permission)
    ensure (not (from == to)) Types.already_own_the_land_unit
    ensure (check_if_land_or_estate_owner from owner s) Types.no_permission
    (class_id, token_id) ← token_of owner
    ensure (not (c.check_item_in_auction (nft class_id token_id) s.auctions))
        Types.land_unit_already_in_auction
    ok (
        deposit_event (Types.transferred_land_unit metaverse_id coordinate from to)
          (record s { nfts = c.transfer_nft from to (class_id, token_id) s.nfts }))

  unfoldable pub transfer_land :
      c.Origin → AccountId → MetaverseId → Coordinate → State c → Result (State c)
  transfer_land origin to metaverse_id coordinate s = do
    who ← c.ensure_signed origin
    do_transfer_landunit coordinate who to metaverse_id s
