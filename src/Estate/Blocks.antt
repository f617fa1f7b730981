-- ===== src/Estate/Blocks.antt =====
-- pallets/estate/src/lib.rs: undeployed land blocks, from their issue to their deployment.
use versus_project_metaverse.Prelude.{
  ℕ, suc, zero, ◌%◌, ◌^◌, Bool, true, false, not, ◌&&◌, ◌||◌, Option, none, some, List, [], ◌∷◌, ok,
  ◌>>=◌, ◌>>◌, ensure, ok_or, other, u32_max, u64_max, u128_max, checked_add, checked_sub,
  saturating_mul, leb, ◌==◌, nat_eq, pair_eq, module_error,
}
use versus_project_metaverse.Prelude.Maps.{get?, insert, remove}
use versus_project_metaverse.Prelude.Lists.{length}
use versus_project_metaverse.Primitives.{
  AccountId, MetaverseId, Coordinate, UndeployedLandBlockId, UndeployedLandBlock,
  UndeployedLandBlockType, is_transferable, account, non_existing, undeployed_land_block,
}
use versus_project_metaverse.Estate.Types
use versus_project_metaverse.Estate.Types.{Config, State, Result, deposit_event}
use versus_project_metaverse.Estate.Coordinates.{verify_land_unit_in_bound}
use versus_project_metaverse.Estate.Lands.{
  collect_storage_fee, collect_network_fee, set_total_land_unit, mint_land_units,
}

module _ (c : Config) where
  unfoldable pub get_new_undeployed_land_block_id :
      State c → Result (UndeployedLandBlockId × State c)
  get_new_undeployed_land_block_id s = do
    next ←
        ok_or (checked_add u128_max s.next_undeployed_land_block_id 1)
          (module_error Types.no_available_estate_id)
    ok (s.next_undeployed_land_block_id, record s { next_undeployed_land_block_id = next })

  unfoldable pub set_total_undeployed_land_unit : ℕ → Bool → State c → Result (State c)
  set_total_undeployed_land_unit total true s = do
    count ← ok_or (checked_sub s.total_undeployed_land_unit total) other
    ok (record s { total_undeployed_land_unit = count })
  set_total_undeployed_land_unit total false s = do
    count ← ok_or (checked_add u64_max s.total_undeployed_land_unit total) other
    ok (record s { total_undeployed_land_unit = count })

  abbrev pub in_auction : UndeployedLandBlockId → State c → Bool
  in_auction id s = c.check_item_in_auction (undeployed_land_block id) s.auctions

  abbrev pub block_of : UndeployedLandBlockId → State c → Result UndeployedLandBlock
  block_of id s =
      ok_or (get? id s.undeployed_land_blocks) (module_error Types.undeployed_land_block_not_found)

  unfoldable pub issue_block :
      AccountId → ℕ → UndeployedLandBlockType → State c → Result (UndeployedLandBlockId × State c)
  issue_block beneficiary number_land_units block_type s = do
    (id, t) ← get_new_undeployed_land_block_id s
    let block : UndeployedLandBlock = record {
      id = id;
      number_land_units = number_land_units;
      undeployed_land_block_type = block_type;
      owner = beneficiary;
      approved = none;
      is_locked = false;
    }
    u ← set_total_undeployed_land_unit number_land_units false (record t {
      undeployed_land_blocks = insert id block t.undeployed_land_blocks;
      undeployed_land_blocks_owner = insert (beneficiary, id) tt t.undeployed_land_blocks_owner;
    })
    ok (id, deposit_event (Types.undeployed_land_block_issued beneficiary id) u)

  -- The loop `for _ in 0..number_of_land_block`.
  unfoldable pub issue_blocks :
      AccountId
      → ℕ
      → ℕ
      → UndeployedLandBlockType
      → State c
      → Result (List UndeployedLandBlockId × State c)
  unfolding issue_block
  issue_blocks beneficiary zero number_land_units block_type s = ok ([], s)
  issue_blocks beneficiary (suc n) number_land_units block_type s = do
    (id, t) ← issue_block beneficiary number_land_units block_type s
    (ids, u) ← issue_blocks beneficiary n number_land_units block_type t
    ok (id ∷ ids, u)

  unfoldable pub do_issue_undeployed_land_blocks :
      AccountId
      → ℕ
      → ℕ
      → UndeployedLandBlockType
      → State c
      → Result (List UndeployedLandBlockId × State c)
  do_issue_undeployed_land_blocks beneficiary number_of_land_block number_land_units block_type s =
      do
        let percent = saturating_mul u32_max (saturating_mul u32_max number_of_land_block 2) 100
        t ← collect_storage_fee c beneficiary percent s
        issue_blocks beneficiary number_of_land_block number_land_units block_type t

  unfoldable pub issue_undeployed_land_blocks :
      c.Origin → AccountId → ℕ → ℕ → UndeployedLandBlockType → State c → Result (State c)
  issue_undeployed_land_blocks origin beneficiary number number_land_units block_type s = do
    _ ← c.ensure_root origin
    (_, t) ← do_issue_undeployed_land_blocks beneficiary number number_land_units block_type s
    ok t

  unfoldable pub do_freeze_undeployed_land_block :
      UndeployedLandBlockId → State c → Result (State c)
  do_freeze_undeployed_land_block id s = do
    block ← block_of id s
    ensure (not block.is_locked) Types.undeployed_land_block_already_freezed
    ensure (not (in_auction id s)) Types.undeployed_land_block_already_in_auction
    ok (
        deposit_event (Types.undeployed_land_block_freezed_event id) (record s {
          undeployed_land_blocks =
              insert id (record block { is_locked = true }) s.undeployed_land_blocks;
        }))

  unfoldable pub freeze_undeployed_land_blocks :
      c.Origin → UndeployedLandBlockId → State c → Result (State c)
  freeze_undeployed_land_blocks origin id s = do
    _ ← c.ensure_root origin
    do_freeze_undeployed_land_block id s

  unfoldable pub unfreeze_undeployed_land_blocks :
      c.Origin → UndeployedLandBlockId → State c → Result (State c)
  unfreeze_undeployed_land_blocks origin id s = do
    _ ← c.ensure_root origin
    block ← block_of id s
    ensure (not (in_auction id s)) Types.undeployed_land_block_already_in_auction
    ensure block.is_locked Types.undeployed_land_block_not_frozen
    ok (
        deposit_event (Types.undeployed_land_block_unfreezed id) (record s {
          undeployed_land_blocks =
              insert id (record block { is_locked = false }) s.undeployed_land_blocks;
        }))

  unfoldable pub do_transfer_undeployed_land_block :
      AccountId → AccountId → UndeployedLandBlockId → State c → Result (State c)
  do_transfer_undeployed_land_block who to id s = do
    t ← collect_storage_fee c who 200 s
    block ← block_of id t
    ensure (block.owner == who) Types.no_permission
    ensure (not block.is_locked) Types.undeployed_land_block_already_freezed
    ensure (is_transferable block.undeployed_land_block_type)
        Types.undeployed_land_block_is_not_transferable
    ok (
        deposit_event (Types.undeployed_land_block_transferred who to id) (record t {
          undeployed_land_blocks = insert id (record block { owner = to }) t.undeployed_land_blocks;
          undeployed_land_blocks_owner =
              insert (to, id) tt (remove (who, id) t.undeployed_land_blocks_owner);
        }))

  unfoldable pub transfer_undeployed_land_blocks :
      c.Origin → AccountId → UndeployedLandBlockId → State c → Result (State c)
  transfer_undeployed_land_blocks origin to id s = do
    who ← c.ensure_signed origin
    ensure (not (in_auction id s)) Types.undeployed_land_block_already_in_auction
    do_transfer_undeployed_land_block who to id s

  unfoldable pub do_burn_undeployed_land_block : UndeployedLandBlockId → State c → Result (State c)
  do_burn_undeployed_land_block id s = do
    block ← block_of id s
    ensure (not (in_auction id s)) Types.undeployed_land_block_already_in_auction
    ensure (not block.is_locked) Types.only_frozen_undeployed_land_block_can_be_destroyed
    t ← set_total_undeployed_land_unit block.number_land_units true s
    ok (
        deposit_event (Types.undeployed_land_block_burnt id) (record t {
          undeployed_land_blocks_owner = remove (block.owner, id) t.undeployed_land_blocks_owner;
          undeployed_land_blocks = remove id t.undeployed_land_blocks;
        }))

  unfoldable pub burn_undeployed_land_blocks :
      c.Origin → UndeployedLandBlockId → State c → Result (State c)
  burn_undeployed_land_blocks origin id s = do
    _ ← c.ensure_root origin
    do_burn_undeployed_land_block id s

  -- What approve_undeployed_land_blocks and unapprove_undeployed_land_blocks share: the guards in
  -- their order, and the write.
  unfoldable pub set_approved :
      AccountId → Option AccountId → UndeployedLandBlockId → State c → Result (State c)
  set_approved who approved id s = do
    block ← block_of id s
    ensure (block.owner == who) Types.no_permission
    ensure (not (in_auction id s)) Types.undeployed_land_block_already_in_auction
    ensure (not block.is_locked) Types.undeployed_land_block_already_freezed
    ok (record s {
      undeployed_land_blocks =
          insert id (record block { approved = approved }) s.undeployed_land_blocks;
    })

  unfoldable pub approve_undeployed_land_blocks :
      c.Origin → AccountId → UndeployedLandBlockId → State c → Result (State c)
  unfolding set_approved
  approve_undeployed_land_blocks origin to id s = do
    who ← c.ensure_signed origin
    t ← set_approved who (some to) id s
    ok (deposit_event (Types.undeployed_land_block_approved who to id) t)

  unfoldable pub unapprove_undeployed_land_blocks :
      c.Origin → UndeployedLandBlockId → State c → Result (State c)
  unfolding set_approved
  unapprove_undeployed_land_blocks origin id s = do
    who ← c.ensure_signed origin
    t ← set_approved who none id s
    ok (deposit_event (Types.undeployed_land_block_unapproved id) t)

  unfoldable pub deploy_land_block :
      c.Origin
      → UndeployedLandBlockId
      → MetaverseId
      → Coordinate
      → List Coordinate
      → State c
      → Result (State c)
  deploy_land_block origin id metaverse_id block_coordinate coordinates s = do
    who ← c.ensure_signed origin
    ensure (not (in_auction id s)) Types.undeployed_land_block_already_in_auction
    ensure (c.metaverse_ownership who metaverse_id s.metaverses) Types.no_permission
    let (low, high) = c.default_max_bound
    ensure
        (leb low block_coordinate.0
          && leb block_coordinate.0 high
          && (leb low block_coordinate.1 && leb block_coordinate.1 high))
        Types.land_unit_is_out_of_bound
    ensure (verify_land_unit_in_bound block_coordinate coordinates) Types.land_unit_is_out_of_bound
    block ← block_of id s
    ensure (block.owner == who) Types.no_permission
    ensure (not block.is_locked) Types.undeployed_land_block_freezed
    ensure (block.number_land_units == length coordinates % 2 ^ 32)
        Types.undeployed_land_block_unit_and_input_does_not_match
    t ← collect_network_fee c who s
    u ← mint_land_units c metaverse_id (account who) who non_existing coordinates t
    v ← set_total_land_unit c (length coordinates) false u
    w ← do_burn_undeployed_land_block id v
    ok (deposit_event (Types.land_block_deployed who metaverse_id id coordinates) w)

  unfoldable pub check_undeployed_land_block :
      AccountId → UndeployedLandBlockId → State c → Result Bool
  check_undeployed_land_block owner id s = do
    block ← block_of id s
    ok (
        not (
          block.is_locked
          || not (is_transferable block.undeployed_land_block_type)
          || not (block.owner == owner)))
