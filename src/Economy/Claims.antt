-- ===== src/Economy/Claims.antt =====
-- What the currency pallet behind pallets/economy promises, and what the storage of the economy
-- pallet owes to an account.
use versus_project_metaverse.Prelude.{ℕ, ◌+◌, ◌-◌, ◌≤◌, ◌≡◌, ok, ◌==◌, if◌then◌else◌}
use versus_project_metaverse.Prelude.Totals.{total}
use versus_project_metaverse.Primitives.{
  AccountId, Balance, RoundIndex, EstateId, Bond, FungibleTokenId,
}
use versus_project_metaverse.Economy.Types

-- `ReservableCurrency`: `reserve` moves a balance from free to reserved, `unreserve` moves back at
-- most what is reserved, `transfer` moves a free balance.
pub record IsLedger (c : Types.Config) : Type 0 where
  pub reserve_reserved :
      (who x : AccountId) (a : Balance) (l l' : c.Ledger)
      → c.reserve who a l ≡ ok l'
      → c.reserved_balance x l' ≡ c.reserved_balance x l + (if who == x then a else 0)
  pub unreserve_reserved :
      (who x : AccountId) (a : Balance) (l : c.Ledger)
      → c.reserved_balance x (c.unreserve who a l)
        ≡ c.reserved_balance x l - (if who == x then a else 0)
  pub transfer_reserved :
      (currency : FungibleTokenId) (from to x : AccountId) (a : Balance) (l l' : c.Ledger)
      → c.transfer currency from to a l ≡ ok l'
      → c.reserved_balance x l' ≡ c.reserved_balance x l

-- The weights by which an entry counts for `x`.
module _ (x : AccountId) where
  abbrev pub of_account : AccountId → Balance → ℕ
  of_account who v = if who == x then v else 0

  abbrev pub of_bond : EstateId → Bond → ℕ
  of_bond _ bond = if bond.staker == x then bond.amount else 0

  abbrev pub of_exit : AccountId × RoundIndex → Balance → ℕ
  of_exit (who, _) v = if who == x then v else 0

  abbrev pub of_estate_exit : AccountId × (RoundIndex × EstateId) → Balance → ℕ
  of_estate_exit (who, _) v = if who == x then v else 0

  -- All that the pallet has reserved for `x` and not given back.
  unfoldable pub claims : {c : Types.Config} → Types.State c → ℕ
  claims s =
      total of_account s.staking_info
      + total of_bond s.estate_staking_info
      + total of_exit s.exit_queue
      + total of_estate_exit s.estate_exit_queue
      + total of_account s.innovation_staking_info
      + total of_exit s.innovation_staking_exit_queue

-- Whatever is staked or waits in an exit queue is still reserved.
abbrev pub IsSolvent : {c : Types.Config} → Types.State c → Type 0
IsSolvent {c} s = (x : AccountId) → claims x s ≤ c.reserved_balance x s.ledger
