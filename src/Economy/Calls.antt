-- ===== src/Economy/Calls.antt =====
-- pallets/economy/src/lib.rs: the calls of the pallet as one type, and the steps of the chain that
-- change its storage.
use versus_project_metaverse.Prelude.{◌≡◌, ◌≤◌, Option, ok}
use versus_project_metaverse.Primitives.{
  AccountId, Balance, BlockNumber, RoundIndex, EstateId, RoundInfo,
}
use versus_project_metaverse.Economy.Types.{Config, State, Result}
use versus_project_metaverse.Economy.Staking
use versus_project_metaverse.Economy.Queues
use versus_project_metaverse.Economy.Innovation
use versus_project_metaverse.Economy.Eras

pub data Call (c : Config) : Type 0 where
  stake : c.Origin → Balance → Option EstateId → Call c
  stake_on_innovation : c.Origin → Balance → Call c
  unstake_on_innovation : c.Origin → Balance → Call c
  claim_reward : c.Origin → Call c
  unstake : c.Origin → Balance → Option EstateId → Call c
  unstake_new_estate_owner : c.Origin → EstateId → Call c
  withdraw_unreserved : c.Origin → RoundIndex → Call c
  withdraw_estate_unreserved : c.Origin → RoundIndex → EstateId → Call c
  force_unstake : c.Origin → Balance → AccountId → Option EstateId → Call c
  force_unreserved_staking : c.Origin → Balance → AccountId → Call c
  update_era_config : c.Origin → Option BlockNumber → Option BlockNumber → Option Balance → Call c

unfoldable pub dispatch : (c : Config) → Call c → State c → Result (State c)
dispatch c (stake o amount estate) s = Staking.stake c o amount estate s
dispatch c (stake_on_innovation o amount) s = Innovation.stake_on_innovation c o amount s
dispatch c (unstake_on_innovation o amount) s = Innovation.unstake_on_innovation c o amount s
dispatch c (claim_reward o) s = Innovation.claim_reward c o s
dispatch c (unstake o amount estate) s = Staking.unstake c o amount estate s
dispatch c (unstake_new_estate_owner o id) s = Queues.unstake_new_estate_owner c o id s
dispatch c (withdraw_unreserved o round) s = Queues.withdraw_unreserved c o round s
dispatch c (withdraw_estate_unreserved o round id) s =
    Queues.withdraw_estate_unreserved c o round id s
dispatch c (force_unstake o amount who estate) s = Queues.force_unstake c o amount who estate s
dispatch c (force_unreserved_staking o amount who) s =
    Queues.force_unreserved_staking c o amount who s
dispatch c (update_era_config o last frequency rate) s =
    Eras.update_era_config c o last frequency rate s

-- The call that gives reserved balance back and leaves the stakes as they are.
abbrev pub Keeps : {c : Config} → Call c → Type 0
Keeps (force_unreserved_staking _ _ _) = ⊥
Keeps _ = Unit

-- A call that succeeds, the first action of a block, or a move of the other pallets, which may
-- transfer, reserve more and change estates, and take nothing that is reserved.
pub data Step {c : Config} (s : State c) : State c → Type 0 where
  called : {s' : State c} (call : Call c) → Keeps call → dispatch c call s ≡ ok s' → Step s s'
  new_block :
      {s' : State c} (n : BlockNumber) (round : RoundInfo)
      → Eras.on_initialize c (record s { block_number = n; round = round }) ≡ ok s'
      → Step s s'
  elsewhere :
      {s' : State c} (ledger : c.Ledger) (estates : c.Estates)
      → ((x : AccountId) → c.reserved_balance x s.ledger ≤ c.reserved_balance x ledger)
      → s' ≡ record s { ledger = ledger; estates = estates }
      → Step s s'

pub data Reach {c : Config} (s : State c) : State c → Type 0 where
  here : Reach s s
  next : {t u : State c} → Reach s t → Step t u → Reach s u
