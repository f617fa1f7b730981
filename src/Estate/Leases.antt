-- ===== src/Estate/Leases.antt =====
-- pallets/estate/src/lib.rs: offers to lease an estate, leases and their rent.
use versus_project_metaverse.Prelude.{
  ℕ, ◌+◌, ◌-◌, ◌*◌, ◌%◌, ◌^◌, Bool, true, false, not, none, some, [], ◌∷◌, ok, ◌>>=◌, ◌>>◌, ensure,
  ok_or, ltb, leb, ◌==◌, if◌then◌else◌, nat_eq, pair_eq, module_error,
}
use versus_project_metaverse.Prelude.Maps.{Map, get?, insert, remove, contains_key}
use versus_project_metaverse.Primitives.{
  AccountId, Balance, BlockNumber, EstateId, LeaseContract, account, token, nft,
}
use versus_project_metaverse.Estate.Types
use versus_project_metaverse.Estate.Types.{Config, State, Result, fail, deposit_event}
use versus_project_metaverse.Estate.Lands.{
  token_of, collect_storage_fee, check_if_land_or_estate_owner,
}

-- `iter_key_prefix(estate_id).count()`
unfoldable pub count_offers : EstateId → Map (EstateId × AccountId) LeaseContract → ℕ
count_offers estate_id [] = 0
count_offers estate_id (((id, _), _) ∷ m) =
    (if id == estate_id then 1 else 0) + count_offers estate_id m

-- `remove_prefix(estate_id)`
unfoldable pub remove_offers :
    EstateId → Map (EstateId × AccountId) LeaseContract → Map (EstateId × AccountId) LeaseContract
remove_offers estate_id [] = []
remove_offers estate_id (((id, who), offer) ∷ m) =
    let rest = remove_offers estate_id m in
    if id == estate_id then rest else ((id, who), offer) ∷ rest

-- `lease.price_per_block * lease.duration.into()`; the balances wrap.
unfoldable pub total_rent : Balance → ℕ → Balance
total_rent price_per_block duration = price_per_block * duration % 2 ^ 128

module _ (c : Config) where
  -- `price_per_block * convert(now - start_block) + unclaimed_rent - total_rent`
  unfoldable pub rent_claim_amount : LeaseContract → BlockNumber → Balance
  rent_claim_amount lease now =
      let rent_period = (now + 2 ^ 32 - lease.start_block) % 2 ^ 32 in
      let accrued = lease.price_per_block * c.block_number_to_balance rent_period % 2 ^ 128 in
      ((accrued + lease.unclaimed_rent) % 2 ^ 128
        + 2 ^ 128
        - total_rent lease.price_per_block lease.duration)
      % 2 ^ 128

  unfoldable pub check_estate_ownership : AccountId → EstateId → State c → Result Bool
  check_estate_ownership who estate_id s = elim (get? estate_id s.estate_owner) [
    | none ↦ ok false
    | some (token class_id token_id) ↦ c.nft_ownership who (class_id, token_id) s.nfts
    | some (account _) ↦ fail Types.invalid_owner_value
  ]

  unfoldable pub create_lease_offer : c.Origin → EstateId → Balance → ℕ → State c → Result (State c)
  create_lease_offer origin estate_id price_per_block duration s = do
    who ← c.ensure_signed origin
    owner ← ok_or (get? estate_id s.estate_owner) (module_error Types.estate_does_not_exist)
    ensure (not (check_if_land_or_estate_owner c who owner s)) Types.no_permission
    ensure (not (contains_key (estate_id, who) s.estate_lease_offers))
        Types.lease_offer_already_exists
    ensure (not (contains_key estate_id s.estate_leases)) Types.estate_is_already_leased
    ensure (leb c.min_lease_price_per_block price_per_block) Types.lease_offer_price_below_minimum
    ensure (leb duration c.max_lease_period) Types.lease_offer_duration_above_maximum
    (class_id, token_id) ← token_of owner
    ensure (not (c.check_item_in_auction (nft class_id token_id) s.auctions))
        Types.estate_already_in_auction
    ensure (leb (count_offers estate_id s.estate_lease_offers % 2 ^ 32) c.max_offers_per_estate)
        Types.estate_lease_offers_queue_limit_is_reached
    let last = (s.block_number + c.lease_offer_expiry_period) % 2 ^ 32
    let rent = total_rent price_per_block duration
    let offer : LeaseContract = record {
      price_per_block = price_per_block;
      duration = duration;
      end_block = last;
      start_block = (last + 1) % 2 ^ 32;
      unclaimed_rent = rent;
    }
    ok (
        deposit_event (Types.estate_lease_offer_created who estate_id rent) (record s {
          estate_lease_offers = insert (estate_id, who) offer s.estate_lease_offers;
          ledger = c.reserve who rent s.ledger;
        }))

  unfoldable pub accept_lease_offer : c.Origin → EstateId → AccountId → State c → Result (State c)
  accept_lease_offer origin estate_id recipient s = do
    who ← c.ensure_signed origin
    ensure (not (contains_key estate_id s.estate_leases)) Types.estate_is_already_leased
    owner ← ok_or (get? estate_id s.estate_owner) (module_error Types.estate_does_not_exist)
    (class_id, token_id) ← token_of owner
    ensure (not (c.check_item_in_auction (nft class_id token_id) s.auctions))
        Types.estate_already_in_auction
    ensure (check_if_land_or_estate_owner c who owner s) Types.no_permission
    offer ←
        ok_or (get? (estate_id, recipient) s.estate_lease_offers)
          (module_error Types.lease_offer_does_not_exist)
    let last = (s.block_number + offer.duration) % 2 ^ 32
    let lease : LeaseContract = record offer { start_block = s.block_number; end_block = last }
    t ← collect_storage_fee c who 200 s
    nfts ← c.set_lock_nft (class_id, token_id) true t.nfts
    ok (
        deposit_event (Types.estate_lease_offer_accepted estate_id recipient last) (record t {
          estate_lease_offers = remove_offers estate_id t.estate_lease_offers;
          estate_leases = insert estate_id lease t.estate_leases;
          estate_leasors = insert (recipient, estate_id) tt t.estate_leasors;
          nfts = nfts;
        }))

  -- How cancel_lease and remove_expired_lease end: the rest of the rent is released, `amount` of it
  -- goes to the owner of the estate, and the token is unlocked.
  unfoldable pub end_lease :
      AccountId → EstateId → AccountId → LeaseContract → Balance → State c → Result (State c)
  end_lease estate_owner estate_id leasor lease amount s = do
    owner ← ok_or (get? estate_id s.estate_owner) (module_error Types.estate_does_not_exist)
    asset ← token_of owner
    ensure (check_if_land_or_estate_owner c estate_owner owner s) Types.no_permission
    ledger ←
        c.transfer leasor estate_owner amount (c.unreserve leasor lease.unclaimed_rent s.ledger)
    nfts ← c.set_lock_nft asset false s.nfts
    ok (record s {
      ledger = ledger;
      nfts = nfts;
      estate_leasors = remove (leasor, estate_id) s.estate_leasors;
      estate_leases = remove estate_id s.estate_leases;
    })

  unfoldable pub cancel_lease :
      c.Origin → AccountId → EstateId → AccountId → State c → Result (State c)
  cancel_lease origin estate_owner estate_id leasor s = do
    _ ← c.ensure_root origin
    lease ← ok_or (get? estate_id s.estate_leases) (module_error Types.lease_does_not_exist)
    ensure (contains_key (leasor, estate_id) s.estate_leasors) Types.lease_does_not_exist
    ensure (ltb s.block_number lease.end_block) Types.lease_is_expired
    let amount = rent_claim_amount lease s.block_number
    t ← end_lease estate_owner estate_id leasor lease amount s
    ok (deposit_event (Types.estate_lease_contract_cancelled estate_id) t)

  unfoldable pub remove_expired_lease : c.Origin → EstateId → AccountId → State c → Result (State c)
  remove_expired_lease origin estate_id leasor s = do
    who ← c.ensure_signed origin
    lease ← ok_or (get? estate_id s.estate_leases) (module_error Types.lease_does_not_exist)
    ensure (contains_key (leasor, estate_id) s.estate_leasors) Types.lease_does_not_exist
    ensure (leb lease.end_block s.block_number) Types.lease_is_not_expired
    t ← end_lease who estate_id leasor lease lease.unclaimed_rent s
    ok (deposit_event (Types.estate_lease_contract_ended estate_id) t)

  unfoldable pub remove_lease_offer : c.Origin → EstateId → State c → Result (State c)
  remove_lease_offer origin estate_id s = do
    leasor ← c.ensure_signed origin
    offer ←
        ok_or (get? (estate_id, leasor) s.estate_lease_offers)
          (module_error Types.lease_offer_does_not_exist)
    ok (
        deposit_event (Types.estate_lease_offer_removed leasor estate_id) (record s {
          estate_lease_offers = remove (estate_id, leasor) s.estate_lease_offers;
          ledger = c.unreserve leasor offer.unclaimed_rent s.ledger;
        }))

  unfoldable pub collect_rent : c.Origin → EstateId → AccountId → State c → Result (State c)
  collect_rent origin estate_id leasor s = do
    who ← c.ensure_signed origin
    owned ← check_estate_ownership who estate_id s
    ensure owned Types.no_permission
    ensure (contains_key (leasor, estate_id) s.estate_leasors) Types.lease_does_not_exist
    lease ← ok_or (get? estate_id s.estate_leases) (module_error Types.lease_does_not_exist)
    ensure (ltb s.block_number lease.end_block) Types.lease_is_expired
    let amount = rent_claim_amount lease s.block_number
    ledger ← c.transfer leasor who amount (c.unreserve leasor amount s.ledger)
    let left : LeaseContract = record lease {
      unclaimed_rent = (lease.unclaimed_rent + 2 ^ 128 - amount) % 2 ^ 128;
    }
    ok (
        deposit_event (Types.estate_rent_collected estate_id amount)
          (record s { ledger = ledger; estate_leases = insert estate_id left s.estate_leases }))
