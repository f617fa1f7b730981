-- ===== src/Mining/Resource.antt =====
-- pallets/mining/src/lib.rs: minting, burning and moving the mining resource, and its origins.
use versus_project_metaverse.Prelude.{
  Bool, not, ◌||◌, ok, ◌>>=◌, ◌>>◌, ensure, leb, ◌==◌, if◌then◌else◌, nat_eq,
}
use versus_project_metaverse.Prelude.Maps.{contains_key, insert, remove}
use versus_project_metaverse.Primitives.{AccountId, Balance}
use versus_project_metaverse.Mining.Types
use versus_project_metaverse.Mining.Types.{Config, State, Result}

module _ (c : Config) where
  unfoldable pub is_mining_origin : AccountId → State c → Bool
  is_mining_origin who s = contains_key who s.minting_origins

  unfoldable pub do_mint : AccountId → AccountId → Balance → State c → Result (State c)
  do_mint who to amount s = if amount == 0 then ok s else do
    ensure (is_mining_origin who s) Types.no_permission
    ledger ← c.deposit c.bit_mining_resource_id to amount s.ledger
    ok (
        Types.deposit_event (Types.mining_resource_minted_to to amount)
          (record s { ledger = ledger }))

  unfoldable pub do_burn : AccountId → AccountId → Balance → State c → Result (State c)
  do_burn who from amount s = if amount == 0 then ok s else do
    ensure (is_mining_origin who s) Types.no_permission
    ensure (c.can_slash c.bit_mining_resource_id from amount s.ledger) Types.balance_zero
    ok (
        Types.deposit_event (Types.mining_resource_burn_from from amount)
          (record s { ledger = c.slash c.bit_mining_resource_id from amount s.ledger }))

  unfoldable pub do_deposit : AccountId → Balance → State c → Result (State c)
  do_deposit who amount s = if amount == 0 then ok s else do
    ensure (leb amount (c.free_balance c.bit_mining_resource_id who s.ledger)) Types.balance_low
    ledger ← c.transfer c.bit_mining_resource_id who c.bit_mining_treasury amount s.ledger
    ok (
        Types.deposit_event (Types.deposit_mining_resource who amount)
          (record s { ledger = ledger }))

  unfoldable pub do_withdraw : AccountId → AccountId → Balance → State c → Result (State c)
  do_withdraw who dest amount s = if amount == 0 || who == dest then ok s else do
    ensure (is_mining_origin who s) Types.no_permission
    ensure (leb amount (c.free_balance c.bit_mining_resource_id c.bit_mining_treasury s.ledger))
        Types.balance_low
    ledger ← c.transfer c.bit_mining_resource_id c.bit_mining_treasury dest amount s.ledger
    ok (
        Types.deposit_event (Types.withdraw_mining_resource dest amount)
          (record s { ledger = ledger }))

  unfoldable pub do_add_minting_origin : AccountId → State c → Result (State c)
  do_add_minting_origin who s = do
    ensure (not (is_mining_origin who s)) Types.origins_already_exist
    ledger ← c.transfer_keep_alive who c.network_treasury_account c.storage_deposit_fee s.ledger
    ok (
        Types.deposit_event (Types.add_new_mining_origin who)
          (record s { ledger = ledger; minting_origins = insert who tt s.minting_origins }))

  unfoldable pub do_remove_minting_origin : AccountId → State c → Result (State c)
  do_remove_minting_origin who s = do
    ensure (is_mining_origin who s) Types.origins_is_not_exist
    ledger ← c.transfer_keep_alive c.network_treasury_account who c.storage_deposit_fee s.ledger
    ok (
        Types.deposit_event (Types.remove_mining_origin who)
          (record s { ledger = ledger; minting_origins = remove who s.minting_origins }))

  unfoldable pub mint : c.Origin → AccountId → Balance → State c → Result (State c)
  mint origin who amount s = do from ← c.ensure_signed origin; do_mint from who amount s

  unfoldable pub burn : c.Origin → AccountId → Balance → State c → Result (State c)
  burn origin who amount s = do from ← c.ensure_signed origin; do_burn from who amount s

  unfoldable pub deposit : c.Origin → Balance → State c → Result (State c)
  deposit origin amount s = do who ← c.ensure_signed origin; do_deposit who amount s

  unfoldable pub withdraw : c.Origin → AccountId → Balance → State c → Result (State c)
  withdraw origin dest amount s = do who ← c.ensure_signed origin; do_withdraw who dest amount s

  unfoldable pub add_minting_origin : c.Origin → AccountId → State c → Result (State c)
  add_minting_origin origin who s = do _ ← c.ensure_admin origin; do_add_minting_origin who s

  unfoldable pub remove_minting_origin : c.Origin → AccountId → State c → Result (State c)
  remove_minting_origin origin who s = do _ ← c.ensure_admin origin; do_remove_minting_origin who s
