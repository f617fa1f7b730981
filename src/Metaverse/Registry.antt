-- ===== src/Metaverse/Registry.antt =====
-- pallets/metaverse/src/lib.rs: the calls of the pallet and what it answers to other pallets.
use versus_project_metaverse.Prelude.{
  ℕ, ◌+◌, ◌%◌, ◌^◌, true, false, ◌||◌, Bool, Option, none, some, List, [], ◌∷◌, ok, ◌>>=◌, ◌>>◌,
  ensure, ok_or, other, underflow, u64_max, checked_add, checked_sub, leb, ltb, ◌==◌, if◌then◌else◌,
  nat_eq, pair_eq, module_error,
}
use versus_project_metaverse.Prelude.Maps.{Map, get?, insert, remove, contains_key}
use versus_project_metaverse.Prelude.Lists.{length}
use versus_project_metaverse.Primitives.{
  AccountId, Balance, RoundIndex, MetaverseId, ClassId, Attributes, FungibleTokenId, native_token,
  token_beq, Perbill, MetaverseInfo,
}
use versus_project_metaverse.Estate.Coordinates.{to_be_bytes, metaverse_key}
use versus_project_metaverse.Metaverse.Types
use versus_project_metaverse.Metaverse.Types.{Config, State, Result, deposit_event}

abbrev category_key : List ℕ
category_key = b'C' ∷ b'a' ∷ b't' ∷ b'e' ∷ b'g' ∷ b'o' ∷ b'r' ∷ b'y' ∷ b':' ∷ []

abbrev lands_text : List ℕ
lands_text = b'L' ∷ b'a' ∷ b'n' ∷ b'd' ∷ b's' ∷ []

abbrev estates_text : List ℕ
estates_text = b'E' ∷ b's' ∷ b't' ∷ b'a' ∷ b't' ∷ b'e' ∷ b's' ∷ []

-- The attributes of the two classes. That of lands has the name of the attribute for its value.
unfoldable pub land_class_attributes : Attributes
land_class_attributes = (metaverse_key, metaverse_key) ∷ (category_key, lands_text) ∷ []

unfoldable pub estate_class_attributes : MetaverseId → Attributes
estate_class_attributes id = (metaverse_key, to_be_bytes 8 id) ∷ (category_key, estates_text) ∷ []

-- The number of metaverses of an owner in the index.
unfoldable pub count_owned : AccountId → Map (AccountId × MetaverseId) (Unit {0}) → ℕ
count_owned who [] = 0
count_owned who (((owner, _), _) ∷ m) = (if owner == who then 1 else 0) + count_owned who m

module _ (c : Config) where
  unfoldable pub mint_metaverse_land_class : MetaverseId → c.Nfts → Result (ClassId × c.Nfts)
  mint_metaverse_land_class id nfts =
      c.create_token_class c.treasury_account (to_be_bytes 8 id) land_class_attributes nfts

  unfoldable pub mint_metaverse_estate_class : MetaverseId → c.Nfts → Result (ClassId × c.Nfts)
  mint_metaverse_estate_class id nfts =
      c.create_token_class c.treasury_account (to_be_bytes 8 id) (estate_class_attributes id) nfts

  unfoldable pub new_metaverse : AccountId → List ℕ → State c → Result (MetaverseId × State c)
  new_metaverse owner metadata s = do
    let id = s.next_metaverse_id
    next ← ok_or (checked_add u64_max id 1) (module_error Types.no_available_metaverse_id)
    (land, nfts) ← mint_metaverse_land_class id s.nfts
    (estate, nfts') ← mint_metaverse_estate_class id nfts
    let info : MetaverseInfo = record {
      owner = owner;
      metadata = metadata;
      currency_id = native_token 0;
      is_frozen = false;
      land_class_id = land;
      estate_class_id = estate;
      listing_fee = c.from_percent 0;
    }
    ok (
      id,
      record s { next_metaverse_id = next; nfts = nfts'; metaverses = insert id info s.metaverses },
    )

  unfoldable pub do_create_metaverse : AccountId → List ℕ → State c → Result (MetaverseId × State c)
  do_create_metaverse who metadata s = do
    ensure (leb (length metadata % 2 ^ 32) c.max_metaverse_metadata) Types.max_metadata_exceeded
    ensure
        (leb ((c.min_contribution + c.storage_deposit_fee) % 2 ^ 128) (c.free_balance who s.ledger))
        Types.insufficient_contribution
    paid ← c.transfer who c.treasury_account c.min_contribution s.ledger
    ledger ← c.transfer who c.network_treasury c.storage_deposit_fee paid
    (id, t) ← new_metaverse who metadata (record s { ledger = ledger })
    count ← ok_or (checked_add u64_max t.all_metaverses_count 1) other
    ok (
      id,
      record t {
        metaverse_owner = insert (who, id) tt t.metaverse_owner;
        all_metaverses_count = count;
      },
    )

  unfoldable pub create_metaverse : c.Origin → List ℕ → State c → Result (State c)
  create_metaverse origin metadata s = do
    who ← c.ensure_signed origin
    (id, t) ← do_create_metaverse who metadata s
    ok (deposit_event (Types.new_metaverse_created id who) t)

  unfoldable pub transfer_metaverse :
      c.Origin → AccountId → MetaverseId → State c → Result (State c)
  transfer_metaverse origin to id s = do
    who ← c.ensure_signed origin
    ledger ← c.transfer who c.network_treasury c.storage_deposit_fee s.ledger
    ensure (contains_key (who, id) s.metaverse_owner) Types.no_permission
    let t : State c = record s { ledger = ledger }
    if who == to
        then ok t
        else (ok_or (get? id t.metaverses) (module_error Types.no_permission) >>= λ info. ok (
            deposit_event (Types.transferred_metaverse id who to) (record t {
              metaverse_owner = insert (to, id) tt (remove (who, id) t.metaverse_owner);
              metaverses = insert id (record info { owner = to }) t.metaverses;
            })))

  -- What freeze_metaverse and unfreeze_metaverse share.
  unfoldable pub set_frozen : Bool → MetaverseId → State c → Result (State c)
  set_frozen frozen id s = do
    info ← ok_or (get? id s.metaverses) (module_error Types.metaverse_info_not_found)
    ok (record s { metaverses = insert id (record info { is_frozen = frozen }) s.metaverses })

  unfoldable pub freeze_metaverse : c.Origin → MetaverseId → State c → Result (State c)
  unfolding set_frozen
  freeze_metaverse origin id s = do
    _ ← c.ensure_council origin
    t ← set_frozen true id s
    ok (deposit_event (Types.metaverse_freezed id) t)

  unfoldable pub unfreeze_metaverse : c.Origin → MetaverseId → State c → Result (State c)
  unfolding set_frozen
  unfreeze_metaverse origin id s = do
    _ ← c.ensure_council origin
    t ← set_frozen false id s
    ok (deposit_event (Types.metaverse_unfreezed id) t)

  unfoldable pub destroy_metaverse : c.Origin → MetaverseId → State c → Result (State c)
  destroy_metaverse origin id s = do
    _ ← c.ensure_council origin
    info ← ok_or (get? id s.metaverses) (module_error Types.metaverse_info_not_found)
    ensure info.is_frozen Types.only_frozen_metaverse_can_be_destroyed
    ok (
        deposit_event (Types.metaverse_destroyed id) (record s {
          metaverse_owner = remove (info.owner, id) s.metaverse_owner;
          metaverses = remove id s.metaverses;
        }))

  unfoldable pub check_ownership : AccountId → MetaverseId → State c → Bool
  check_ownership who id s = contains_key (who, id) s.metaverse_owner

  unfoldable pub do_update_metaverse_listing_fee :
      AccountId → MetaverseId → Perbill → State c → Result (State c)
  unfolding check_ownership
  do_update_metaverse_listing_fee who id fee s = do
    ensure (check_ownership who id s) Types.no_permission
    ensure (leb fee (c.from_percent 25)) Types.metaverse_listing_fee_exceed_threshold
    info ← ok_or (get? id s.metaverses) (module_error Types.metaverse_info_not_found)
    ok (record s { metaverses = insert id (record info { listing_fee = fee }) s.metaverses })

  unfoldable pub update_metaverse_listing_fee :
      c.Origin → MetaverseId → Perbill → State c → Result (State c)
  update_metaverse_listing_fee origin id fee s = do
    who ← c.ensure_signed origin
    t ← do_update_metaverse_listing_fee who id fee s
    ok (deposit_event (Types.metaverse_listing_fee_updated id fee) t)

  unfoldable pub withdraw_from_metaverse_fund : c.Origin → MetaverseId → State c → Result (State c)
  unfolding check_ownership
  withdraw_from_metaverse_fund origin id s = do
    who ← c.ensure_signed origin
    ensure (check_ownership who id s) Types.no_permission
    let fund = c.metaverse_account id
    amount ← ok_or (checked_sub (c.free_balance fund s.ledger) c.minimum_balance) underflow
    ledger ← c.transfer fund who amount s.ledger
    ok (deposit_event (Types.metaverse_treasury_funds_withdrawn id) (record s { ledger = ledger }))

  unfoldable pub update_staking_info : AccountId → Balance → State c → State c
  update_staking_info who amount s =
      if amount == 0
      then record s {
        staking_info = remove who s.staking_info;
        ledger = c.remove_lock who s.ledger;
      }
      else record s {
        staking_info = insert who amount s.staking_info;
        ledger = c.set_lock who amount s.ledger;
      }

  unfoldable pub get_metaverse_token : MetaverseId → State c → Option FungibleTokenId
  get_metaverse_token id s = elim (get? id s.metaverses) [
    | none ↦ none
    | some info ↦ some info.currency_id
  ]

  unfoldable pub update_metaverse_token : MetaverseId → FungibleTokenId → State c → Result (State c)
  update_metaverse_token id currency s = do
    info ← ok_or (get? id s.metaverses) (module_error Types.no_permission)
    ensure (token_beq info.currency_id (native_token 0)) Types.fungible_token_already_issued
    ok (
        deposit_event (Types.metaverse_minted_new_currency id currency) (record s {
          metaverses = insert id (record info { currency_id = currency }) s.metaverses;
        }))

  -- `Self::get_metaverse(metaverse_id).ok_or(Error::<T>::MetaverseInfoNotFound)?`
  unfoldable pub info_of : MetaverseId → State c → Result MetaverseInfo
  info_of id s = ok_or (get? id s.metaverses) (module_error Types.metaverse_info_not_found)

  unfoldable pub get_metaverse_land_class : MetaverseId → State c → Result ClassId
  unfolding info_of
  get_metaverse_land_class id s = do info ← info_of id s; ok info.land_class_id

  unfoldable pub get_metaverse_estate_class : MetaverseId → State c → Result ClassId
  unfolding info_of
  get_metaverse_estate_class id s = do info ← info_of id s; ok info.estate_class_id

  unfoldable pub get_metaverse_marketplace_listing_fee : MetaverseId → State c → Result Perbill
  unfolding info_of
  get_metaverse_marketplace_listing_fee id s = do info ← info_of id s; ok info.listing_fee

  unfoldable pub check_if_metaverse_estate : MetaverseId → ClassId → State c → Result Bool
  unfolding info_of
  check_if_metaverse_estate id class_id s = do
    info ← info_of id s
    ok (class_id == info.land_class_id || class_id == info.estate_class_id)

  unfoldable pub check_if_metaverse_has_any_land : MetaverseId → State c → Result Bool
  unfolding info_of
  check_if_metaverse_has_any_land id s = do
    info ← info_of id s
    lands ← c.get_total_issuance info.land_class_id s.nfts
    estates ← c.get_total_issuance info.estate_class_id s.nfts
    ok (ltb 0 lands || ltb 0 estates)

  unfoldable pub is_metaverse_owner : AccountId → State c → Bool
  unfolding count_owned
  is_metaverse_owner who s = ltb 0 (count_owned who s.metaverse_owner % 2 ^ 32)

  unfoldable pub update_staking_reward : RoundIndex → Balance → State c → Result (State c)
  update_staking_reward round total_reward s = elim (get? round s.metaverse_staking_snapshots) [
    | none ↦ ok s
    | some snapshot ↦ ok (record s {
      metaverse_staking_snapshots =
          insert round (record snapshot { rewards = total_reward }) s.metaverse_staking_snapshots;
    })
  ]
