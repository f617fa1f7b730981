-- ===== src/Economy/Tests.antt =====
-- Runs of pallets/economy on the small runtime, and the theorems at concrete states.
use versus_project_metaverse.Prelude.{
  ℕ, ◌+◌, ◌*◌, ◌-◌, ◌≤◌, ◌<◌, min, nat_eq, pair_eq, ◌≡◌, refl, none, some, [], ok, arith, value_or,
}
use versus_project_metaverse.Prelude.Maps.{get?, get_or, insert, remove}
use versus_project_metaverse.Prelude.Totals.{total}
use versus_project_metaverse.Economy.Types.{State}
use versus_project_metaverse.Economy.Staking
use versus_project_metaverse.Economy.Queues
use versus_project_metaverse.Economy.Calls.{
  Call, dispatch, Step, Reach, here, next, called, new_block,
}
use versus_project_metaverse.Economy.Calls
use versus_project_metaverse.Economy.Claims.{claims, IsSolvent}
use versus_project_metaverse.Economy.Runtime.{runtime, runtime-IsLedger, empty}
use versus_project_metaverse.Economy.Solvency.History.{Reach-IsSolvent}
use versus_project_metaverse.Economy.Tallies.{IsTallied}
use versus_project_metaverse.Economy.TallyCalls.{dispatch-IsTallied}
use versus_project_metaverse.Economy.Minimum.{HasMinimum, dispatch-HasMinimum}
use versus_project_metaverse.Economy.Lifecycle.{unstake_self_lem}
mod Lifecycle
mod Rewards

abbrev pub run_call : Call runtime → State runtime → State runtime
run_call call s = value_or s (dispatch runtime call s)

-- Account 5 stakes 100, unstakes 95, and so all of it, and withdraws in the next round.
abbrev pub one_stake : State runtime
one_stake = run_call (Calls.stake 5 100 none) empty

abbrev pub one_exit : State runtime
one_exit = run_call (Calls.unstake 5 95 none) one_stake

abbrev pub paid_out : State runtime
paid_out = run_call (Calls.withdraw_unreserved 5 2) one_exit

one_exit_queue : (one_exit.staking_info ≡ []) × (get? (5, 2) one_exit.exit_queue ≡ some 100)
unfolding dispatch Staking.stake Staking.stake_self Staking.unstake Staking.unstake_self get? insert
    remove
one_exit_queue = (refl, refl)

paid_out_ledger :
    (paid_out.exit_queue ≡ []) × (paid_out.ledger.free 5 ≡ 1000) × (paid_out.ledger.reserved 5 ≡ 0)
unfolding dispatch Staking.stake Staking.stake_self Staking.unstake Staking.unstake_self
    Queues.withdraw_unreserved get? insert remove
paid_out_ledger = (refl, refl, refl)

empty-IsSolvent : IsSolvent empty
unfolding claims total
empty-IsSolvent x = omega arith

paid_out-Reach : Reach empty paid_out
unfolding dispatch Staking.stake Staking.stake_self Staking.unstake Staking.unstake_self
    Queues.withdraw_unreserved get? insert remove
paid_out-Reach =
    next
      (next (next here (called (Calls.stake 5 100 none) tt refl))
        (called (Calls.unstake 5 95 none) tt refl))
      (called (Calls.withdraw_unreserved 5 2) tt refl)

Reach-IsSolvent_example : IsSolvent paid_out
Reach-IsSolvent_example = Reach-IsSolvent runtime runtime-IsLedger paid_out-Reach empty-IsSolvent

one_stake-IsTallied : IsTallied one_stake
unfolding dispatch Staking.stake Staking.stake_self get? insert remove total
one_stake-IsTallied = record { self_total = refl; estate_total = refl; innovation_total = refl }

dispatch-IsTallied_example : IsTallied one_exit
unfolding dispatch Staking.stake Staking.stake_self Staking.unstake Staking.unstake_self get? insert
    remove
dispatch-IsTallied_example =
    dispatch-IsTallied runtime (Calls.unstake 5 95 none) one_stake one_exit tt refl
      one_stake-IsTallied

dispatch-HasMinimum_example : HasMinimum one_exit
unfolding dispatch Staking.stake Staking.stake_self Staking.unstake Staking.unstake_self get? insert
    remove
dispatch-HasMinimum_example =
    dispatch-HasMinimum runtime (Calls.unstake 5 95 none) one_stake one_exit refl
      (record { self_stakes = omega arith; estate_stakes = tt; innovation_stakes = tt })

unstake_self_lem_example :
    (95 ≤ get_or 0 5 one_stake.staking_info)
    × (get? (5, Staking.next_round 1) one_stake.exit_queue ≡ none)
    × (get? (5, Staking.next_round 1) one_exit.exit_queue ≡ some 100)
    × (get_or 0 5 one_exit.staking_info + 100 ≡ get_or 0 5 one_stake.staking_info)
    × (one_exit.ledger ≡ one_stake.ledger)
unfolding dispatch Staking.stake Staking.stake_self Staking.unstake Staking.unstake_self get? insert
    remove
unstake_self_lem_example = unstake_self_lem runtime 5 95 one_stake one_exit (refl, tt) refl
