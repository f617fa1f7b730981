-- ===== src/Spp/Pools.antt =====
-- pallets/spp/src/lib.rs: creating a pool, depositing into it, and the fees.
use versus_project_metaverse.Prelude.{
  ℕ, ◌||◌, ok, panic, module_error, ◌>>=◌, ◌>>◌, ensure, ok_or, leb, ◌==◌, if◌then◌else◌, nat_eq,
  u128_max, u256_max, u32_max, checked_add, checked_sub, checked_div, saturating_mul,
}
use versus_project_metaverse.Prelude.Maps.{get?, get_or, insert}
use versus_project_metaverse.Primitives.{
  AccountId, Balance, FungibleTokenId, native_token, token_beq, token_eq,
}
use versus_project_metaverse.Spp.Types
use versus_project_metaverse.Spp.Types.{Config, State, Result, PoolId, PoolInfo}

-- a * b / d by way of `U256`, whose `as_u128` panics where the number does not fit.
unfoldable pub exchange : Balance → Balance → Balance → Result Balance
exchange a b d = do
  n ← ok_or (checked_div (saturating_mul u256_max a b) d) (module_error Types.arithmetic_overflow)
  (if leb n u128_max then ok n else panic)

-- The receipts for a deposit: as many as the amount where the network ledger is empty.
unfoldable pub receipts : Balance → Balance → Balance → Result Balance
unfolding exchange
receipts amount issuance network_ledger_balance =
    if network_ledger_balance == 0
    then ok amount
    else exchange amount issuance network_ledger_balance

module _ (c : Config) where
  -- The body that `collect_deposit_fee` and `collect_redeem_fee` share: what is left of the amount,
  -- and the ledger after the fee.
  unfoldable pub collect_fee :
      c.Rate → AccountId → FungibleTokenId → Balance → c.Ledger → Result (Balance × c.Ledger)
  collect_fee rate who currency amount ledger = do
    let fee = c.saturating_mul_int rate amount
    amount_exclude_fee ← ok_or (checked_sub amount fee) (module_error Types.arithmetic_overflow)
    ledger' ← c.transfer currency who c.pool_account fee ledger
    ok (amount_exclude_fee, ledger')

  -- The pool of the next id, where zero counts as one.
  unfoldable pub create_pool : c.Origin → FungibleTokenId → ℕ → c.Rate → State c → Result (State c)
  create_pool origin currency max_nft_reward commission s = do
    who ← c.ensure_signed origin
    ensure (token_beq currency (native_token 0) || token_beq currency (native_token 1))
        Types.currency_is_not_supported
    ledger ←
        c.transfer currency who c.pool_account (get_or 0 currency s.currency_network_fee) s.ledger
    let pool_id = if s.next_pool_id == 0 then 1 else s.next_pool_id
    next_pool_id ← ok_or (checked_add u32_max pool_id 1) (module_error Types.no_available_pool_id)
    let new_pool : PoolInfo c = record {
      creator = who;
      commission = commission;
      currency_id = currency;
      max = max_nft_reward;
    }
    ok (
        Types.deposit_event (Types.pool_created who pool_id currency) (record s {
          ledger = ledger;
          next_pool_id = next_pool_id;
          pool = insert pool_id new_pool s.pool;
        }))

  unfoldable pub deposit : c.Origin → PoolId → Balance → State c → Result (State c)
  deposit origin pool_id amount s = do
    who ← c.ensure_signed origin
    pool_instance ← ok_or (get? pool_id s.pool) (module_error Types.pool_does_not_exist)
    let currency = pool_instance.currency_id
    let network_ledger_balance = get_or 0 currency s.network_ledger
    (amount_after_fee, ledger) ← collect_fee s.deposit_rate who currency amount s.ledger
    r_currency ←
        ok_or (c.convert_to_rcurrency currency) (module_error Types.currency_is_not_supported)
    r_amount ← receipts amount_after_fee (c.total_issuance r_currency ledger) network_ledger_balance
    ledger' ← c.deposit r_currency who r_amount ledger
    pool_total ←
        ok_or (checked_add u128_max (get_or 0 pool_id s.pool_ledger) amount_after_fee)
          (module_error Types.arithmetic_overflow)
    network_total ←
        ok_or (checked_add u128_max network_ledger_balance amount_after_fee)
          (module_error Types.arithmetic_overflow)
    ledger'' ← c.transfer currency who c.pool_account amount_after_fee ledger'
    ok (
        Types.deposit_event (Types.deposited who pool_id amount) (record s {
          ledger = ledger'';
          pool_ledger = insert pool_id pool_total s.pool_ledger;
          network_ledger = insert currency network_total s.network_ledger;
        }))
