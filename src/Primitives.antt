-- ===== src/Primitives.antt =====
-- primitives/metaverse/src (lib.rs, staking.rs) and traits/core-primitives/src/lib.rs: the types
-- that the pallets share. Account ids and the ids of assets are only compared, so they are numbers.
use versus_project_metaverse.Prelude.Maps.{Map}
use versus_project_metaverse.Prelude.{
  Option, List, ℕ, ◌+◌, ◌-◌, ◌%◌, ◌^◌, ◌≡◌, ◌↔◌, Bool, true, false, ◌&&◌, arith, ◌==◌, leb, Eq,
}

abbrev pub AccountId : Type 0
AccountId = ℕ

abbrev pub Balance : Type 0
Balance = ℕ

abbrev pub BlockNumber : Type 0
BlockNumber = ℕ

abbrev pub RoundIndex : Type 0
RoundIndex = ℕ

abbrev pub EraIndex : Type 0
EraIndex = ℕ

abbrev pub EstateId : Type 0
EstateId = ℕ

abbrev pub PowerAmount : Type 0
PowerAmount = ℕ

abbrev pub MetaverseId : Type 0
MetaverseId = ℕ

abbrev pub ClassId : Type 0
ClassId = ℕ

abbrev pub TokenId : Type 0
TokenId = ℕ

abbrev pub UndeployedLandBlockId : Type 0
UndeployedLandBlockId = ℕ

-- `NftMetadata`: bytes.
abbrev pub NftMetadata : Type 0
NftMetadata = List ℕ

abbrev pub Attributes : Type 0
Attributes = Map (List ℕ) (List ℕ)

-- A pair of `i32`, each by its distance from `i32::MIN`.
abbrev pub Coordinate : Type 0
Coordinate = ℕ × ℕ

pub data FungibleTokenId : Type 0 where
  native_token fungible_token : ℕ → FungibleTokenId
  dex_share : ℕ → ℕ → FungibleTokenId
  mining_resource stable : ℕ → FungibleTokenId

abbrev pub token_beq : FungibleTokenId → FungibleTokenId → Bool
token_beq (native_token a) (native_token b) = a == b
token_beq (fungible_token a) (fungible_token b) = a == b
token_beq (dex_share a c) (dex_share b d) = a == b && c == d
token_beq (mining_resource a) (mining_resource b) = a == b
token_beq (stable a) (stable b) = a == b
token_beq _ _ = false

pub token_beq_iff : (a b : FungibleTokenId) → (token_beq a b ≡ true) ↔ (a ≡ b)
token_beq_iff (native_token a) (native_token b) = ground arith
token_beq_iff (fungible_token a) (fungible_token b) = ground arith
token_beq_iff (dex_share a c) (dex_share b d) = ground arith
token_beq_iff (mining_resource a) (mining_resource b) = ground arith
token_beq_iff (stable a) (stable b) = ground arith
token_beq_iff _ _ = ground arith

instance abbrev pub token_eq : Eq FungibleTokenId
token_eq = record { beq = token_beq; beq_iff = token_beq_iff }

-- staking.rs: `first` is the first block of the round, `length` its number of blocks.
pub record RoundInfo : Type 0 where
  pub current : RoundIndex
  pub first : BlockNumber
  pub length : ℕ

pub record Bond : Type 0 where
  pub staker : AccountId
  pub amount : Balance

-- `RoundInfo::should_update`: the subtraction wraps on a u32 block number.
unfoldable pub should_update : RoundInfo → BlockNumber → Bool
should_update round now = leb round.length ((now + 2 ^ 32 - round.first) % 2 ^ 32)

-- `RoundInfo::update`
unfoldable pub update : RoundInfo → BlockNumber → RoundInfo
update round now = record round { current = (round.current + 1) % 2 ^ 32; first = now }

-- `MiningRange`
pub record MiningRange : Type 0 where
  pub min : Balance
  pub ideal : Balance
  pub max : Balance
  pub staking_allocation : Balance
  pub mining_allocation : Balance

-- `MiningRange::is_valid`
unfoldable pub is_valid : MiningRange → Bool
is_valid range = leb range.ideal range.max && leb range.min range.ideal

-- A `Perbill` by its parts.
abbrev pub Perbill : Type 0
Perbill = ℕ

pub record MiningResourceRateInfo : Type 0 where
  pub rate : Perbill
  pub staking_reward : Perbill
  pub mining_reward : Perbill

-- estate.rs: `EstateInfo`
pub record EstateInfo : Type 0 where
  pub metaverse_id : MetaverseId
  pub land_units : List Coordinate

-- `OwnerId<AccountId, ClassId, TokenId>`
pub data OwnerId : Type 0 where
  account : AccountId → OwnerId
  token : ClassId → TokenId → OwnerId

pub data LandUnitStatus : Type 0 where
  non_existing : LandUnitStatus
  existing : AccountId → LandUnitStatus
  non_existing_with_estate removed_from_estate : LandUnitStatus

-- `end_block` is the last block of an offer, `start_block` the one after it, until it is accepted.
pub record LeaseContract : Type 0 where
  pub price_per_block : Balance
  pub duration : ℕ
  pub end_block : BlockNumber
  pub start_block : BlockNumber
  pub unclaimed_rent : Balance

-- lib.rs: `UndeployedLandBlockType`
pub data UndeployedLandBlockType : Type 0 where
  transferable bound_to_address : UndeployedLandBlockType

unfoldable pub is_transferable : UndeployedLandBlockType → Bool
is_transferable transferable = true
is_transferable bound_to_address = false

pub record UndeployedLandBlock : Type 0 where
  pub id : UndeployedLandBlockId
  pub number_land_units : ℕ
  pub undeployed_land_block_type : UndeployedLandBlockType
  pub owner : AccountId
  pub approved : Option AccountId
  pub is_locked : Bool

-- `ItemId<Balance>`
pub data ItemId : Type 0 where
  nft : ClassId → TokenId → ItemId
  stackable_nft : ClassId → TokenId → Balance → ItemId
  spot : Coordinate → MetaverseId → ItemId
  metaverse : MetaverseId → ItemId
  block : ℕ → ItemId
  estate : EstateId → ItemId
  land_unit : Coordinate → MetaverseId → ItemId
  bundle : List (ClassId × (TokenId × Balance)) → ItemId
  undeployed_land_block : UndeployedLandBlockId → ItemId

-- `MetaverseInfo<AccountId>`
pub record MetaverseInfo : Type 0 where
  pub owner : AccountId
  pub metadata : List ℕ
  pub currency_id : FungibleTokenId
  pub is_frozen : Bool
  pub land_class_id : ClassId
  pub estate_class_id : ClassId
  pub listing_fee : Perbill
