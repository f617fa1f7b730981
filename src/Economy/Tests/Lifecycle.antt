-- ===== src/Economy/Tests/Lifecycle.antt =====
-- The theorems on stakes and exit queues of pallets/economy at concrete states.
use versus_project_metaverse.Prelude.{
  arith, nat_eq, ◌+◌, ◌-◌, ◌≤◌, ◌<◌, nat_eq, pair_eq, err, module_error, ◌≡◌, refl, none, some, [],
  ◌∷◌, ok,
}
use versus_project_metaverse.Prelude.Maps.{get?, insert, remove}
use versus_project_metaverse.Prelude.Totals.{total}
use versus_project_metaverse.Economy.Types.{State}
use versus_project_metaverse.Economy.Types
use versus_project_metaverse.Economy.Staking
use versus_project_metaverse.Economy.Queues
use versus_project_metaverse.Economy.Calls
use versus_project_metaverse.Economy.Calls.{dispatch}
use versus_project_metaverse.Economy.Claims.{claims}
use versus_project_metaverse.Economy.Runtime.{runtime, runtime-IsLedger, empty}
use versus_project_metaverse.Economy.Tallies.{bond_amount, force_unstake_estate-total}
use versus_project_metaverse.Economy.Lifecycle.{
  withdraw-unstake_self, withdraw_unreserved_twice, release_bond-claims,
  force_unreserved_staking_uncovers,
}
use versus_project_metaverse.Economy.Tests.{run_call, one_stake, one_exit, paid_out}

withdraw-unstake_self_example :
    (t : State runtime) × (Queues.withdraw_unreserved runtime 5 2 one_exit ≡ ok t)
    × (t.ledger ≡ runtime.unreserve 5 100 one_stake.ledger)
    × (t.round ≡ one_stake.round)
unfolding dispatch Staking.stake Staking.stake_self Staking.unstake Staking.unstake_self get? insert
    remove
withdraw-unstake_self_example = withdraw-unstake_self runtime 5 5 95 one_stake one_exit refl refl

withdraw_unreserved_twice_example :
    Queues.withdraw_unreserved runtime 5 2 paid_out
    ≡ err (module_error Types.exit_queue_does_not_exit)
unfolding dispatch Staking.stake Staking.stake_self Staking.unstake Staking.unstake_self
    Queues.withdraw_unreserved get? insert remove
withdraw_unreserved_twice_example =
    withdraw_unreserved_twice runtime 5 2 one_exit paid_out (refl, tt) refl

-- Account 5 bonds 60 at estate 7 and unstakes 20 of it; account 6 then owns the estate.
abbrev bonded_estate : State runtime
bonded_estate = run_call (Calls.stake 5 60 (some 7)) empty

abbrev sold_estate : State runtime
sold_estate = record (run_call (Calls.unstake 5 20 (some 7)) bonded_estate) { estates = 6 }

abbrev released : State runtime
released = run_call (Calls.unstake_new_estate_owner 6 7) sold_estate

release_bond-claims_example :
    (claims 5 released + 20 ≡ claims 5 sold_estate) × (released.ledger ≡ sold_estate.ledger)
unfolding dispatch Staking.stake Staking.stake_estate Staking.unstake Staking.unstake_estate
    Queues.unstake_new_estate_owner Queues.release_bond get? insert remove
release_bond-claims_example =
    release_bond-claims runtime 6 5 7 (record { staker = 5; amount = 40 }) sold_estate released refl
      refl

force_unreserved_staking_uncovers_example : 60 < claims 5 one_stake
unfolding dispatch Staking.stake Staking.stake_self Queues.force_unreserved_staking claims get?
    insert remove total
force_unreserved_staking_uncovers_example =
    force_unreserved_staking_uncovers runtime runtime-IsLedger 0 40 5 one_stake
      (run_call (Calls.force_unreserved_staking 0 40 5) one_stake) (omega arith) refl

-- Account 5 has 70 at stake beside 60 at the estate, and the root unstakes 20 of the latter.
abbrev two_stakes : State runtime
two_stakes = run_call (Calls.stake 5 70 none) bonded_estate

abbrev forced : State runtime
forced = run_call (Calls.force_unstake 0 20 5 (some 7)) two_stakes

force_unstake_estate-total_example :
    (total bond_amount forced.estate_staking_info
      ≤ total bond_amount two_stakes.estate_staking_info)
    × (forced.total_estate_stake
        ≡ two_stakes.total_stake
          - (total bond_amount two_stakes.estate_staking_info
              - total bond_amount forced.estate_staking_info))
unfolding dispatch Staking.stake Staking.stake_self Staking.stake_estate Queues.force_unstake
    Queues.force_unstake_estate get? insert remove
force_unstake_estate-total_example =
    force_unstake_estate-total runtime 5 20 7 two_stakes forced refl

abbrev before_power : State runtime
before_power = record empty { power_balance = (5, 40) ∷ [] }

abbrev after_power : State runtime
after_power = record empty { power_balance = (5, 30) ∷ [] }
