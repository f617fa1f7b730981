-- ===== src/Economy/Solvency/History.antt =====
-- pallets/economy/src/lib.rs: along every history of the chain the reserved balances cover the
-- claims.
use versus_project_metaverse.Prelude.{◌≡◌, Option, none, some, ok, arith, >>=-eq_ok, nat_eq, refl}
use versus_project_metaverse.Prelude.Maps.{get?}
use versus_project_metaverse.Primitives.{AccountId, Balance, BlockNumber, EstateId, RoundInfo}
use versus_project_metaverse.Economy.Types.{Config, State}
use versus_project_metaverse.Economy.Claims.{IsLedger, claims, IsSolvent}
use versus_project_metaverse.Economy.Staking
use versus_project_metaverse.Economy.Queues
use versus_project_metaverse.Economy.Calls.{Call, dispatch, Keeps, Step, Reach}
use versus_project_metaverse.Economy.Calls
use versus_project_metaverse.Economy.Solvency.Staking as OfStaking
use versus_project_metaverse.Economy.Solvency.Queues as OfQueues
use versus_project_metaverse.Economy.Solvency.Innovation as OfInnovation
use versus_project_metaverse.Economy.Solvency.Rewards as OfRewards

module _ (c : Config) (s : State c) where
  block-claims :
      (n : BlockNumber) (round : RoundInfo) (x : AccountId)
      → claims x {c = c} (record s { block_number = n; round = round }) ≡ claims x s
  unfolding claims
  block-claims n round x = refl

  elsewhere-claims :
      (ledger : c.Ledger) (estates : c.Estates) (x : AccountId)
      → claims x {c = c} (record s { ledger = ledger; estates = estates }) ≡ claims x s
  unfolding claims
  elsewhere-claims ledger estates x = refl

module _ (c : Config) (laws : IsLedger c) where
  stake-IsSolvent :
      (o : c.Origin) (amount : Balance) (estate : Option EstateId) (s s' : State c)
      → Staking.stake c o amount estate s ≡ ok s'
      → IsSolvent s
      → IsSolvent s'
  unfolding Staking.stake
  stake-IsSolvent o amount none s s' e h =
      let (who, signed, e') = >>=-eq_ok (c.ensure_signed o) _ e in
      let done : Staking.stake_self c who amount s ≡ ok s' = ground arith in
      OfStaking.stake_self-IsSolvent c laws who amount s s' done h
  stake-IsSolvent o amount (some id) s s' e h =
      let (who, signed, e') = >>=-eq_ok (c.ensure_signed o) _ e in
      let done : Staking.stake_estate c who amount id s ≡ ok s' = ground arith in
      OfStaking.stake_estate-IsSolvent c laws who amount id s s' done h

  unstake-IsSolvent :
      (o : c.Origin) (amount : Balance) (estate : Option EstateId) (s s' : State c)
      → Staking.unstake c o amount estate s ≡ ok s'
      → IsSolvent s
      → IsSolvent s'
  unfolding Staking.unstake
  unstake-IsSolvent o amount none s s' e h =
      let (who, signed, e') = >>=-eq_ok (c.ensure_signed o) _ e in
      let done : Staking.unstake_self c who amount s ≡ ok s' = ground arith in
      OfStaking.unstake_self-IsSolvent c laws who amount s s' done h
  unstake-IsSolvent o amount (some id) s s' e h =
      let (who, signed, e') = >>=-eq_ok (c.ensure_signed o) _ e in
      let done : Staking.unstake_estate c who amount id s ≡ ok s' = ground arith in
      OfStaking.unstake_estate-IsSolvent c laws who amount id s s' done h

  unstake_new_estate_owner-IsSolvent :
      (o : c.Origin) (id : EstateId) (s s' : State c)
      → Queues.unstake_new_estate_owner c o id s ≡ ok s'
      → IsSolvent s
      → IsSolvent s'
  unfolding Queues.unstake_new_estate_owner
  unstake_new_estate_owner-IsSolvent o id s s' e h =
      let (who, signed, e') = >>=-eq_ok (c.ensure_signed o) _ e in
      let done : Queues.release_bond c who id (get? id s.estate_staking_info) s ≡ ok s' =
        ground arith in
      OfStaking.release_bond-IsSolvent c laws who id (get? id s.estate_staking_info) s s' refl done
        h

  force_unstake-IsSolvent :
      (o : c.Origin) (amount : Balance) (who : AccountId) (estate : Option EstateId)
      (s s' : State c)
      → Queues.force_unstake c o amount who estate s ≡ ok s'
      → IsSolvent s
      → IsSolvent s'
  unfolding Queues.force_unstake
  force_unstake-IsSolvent o amount who none s s' e h =
      let done : Queues.force_unstake_self c who amount s ≡ ok s' = ground arith in
      OfQueues.force_unstake_self-IsSolvent c laws who amount s s' done h
  force_unstake-IsSolvent o amount who (some id) s s' e h =
      let done : Queues.force_unstake_estate c who amount id s ≡ ok s' = ground arith in
      OfQueues.force_unstake_estate-IsSolvent c laws who amount id s s' done h

  -- A successful call other than `force_unreserved_staking` leaves every account with at least as
  -- much reserved balance as its stakes and its exit queues add up to, if it was so before.
  pub dispatch-IsSolvent :
      (call : Call c) (s s' : State c)
      → Keeps call
      → dispatch c call s ≡ ok s'
      → IsSolvent s
      → IsSolvent s'
  unfolding dispatch
  dispatch-IsSolvent (Calls.stake o amount estate) s s' k e h =
      stake-IsSolvent o amount estate s s' e h
  dispatch-IsSolvent (Calls.stake_on_innovation o amount) s s' k e h =
      OfInnovation.stake_on_innovation-IsSolvent c laws o amount s s' e h
  dispatch-IsSolvent (Calls.unstake_on_innovation o amount) s s' k e h =
      OfInnovation.unstake_on_innovation-IsSolvent c o amount s s' e h
  dispatch-IsSolvent (Calls.claim_reward o) s s' k e h =
      OfRewards.claim_reward-IsSolvent c laws o s s' e h
  dispatch-IsSolvent (Calls.unstake o amount estate) s s' k e h =
      unstake-IsSolvent o amount estate s s' e h
  dispatch-IsSolvent (Calls.unstake_new_estate_owner o id) s s' k e h =
      unstake_new_estate_owner-IsSolvent o id s s' e h
  dispatch-IsSolvent (Calls.withdraw_unreserved o round) s s' k e h =
      OfQueues.withdraw_unreserved-IsSolvent c laws o round s s' e h
  dispatch-IsSolvent (Calls.withdraw_estate_unreserved o round id) s s' k e h =
      OfQueues.withdraw_estate_unreserved-IsSolvent c laws o round id s s' e h
  dispatch-IsSolvent (Calls.force_unstake o amount who estate) s s' k e h =
      force_unstake-IsSolvent o amount who estate s s' e h
  dispatch-IsSolvent (Calls.force_unreserved_staking o amount who) s s' k e h = absurd k
  dispatch-IsSolvent (Calls.update_era_config o last frequency rate) s s' k e h = λ x.
      ground (arith, h x, OfRewards.update_era_config-SameClaims c o last frequency rate s s' x e)

  Step-IsSolvent : {s s' : State c} → Step s s' → IsSolvent s → IsSolvent s'
  Step-IsSolvent {s} {s'} (Step.called call k e) h = dispatch-IsSolvent call s s' k e h
  Step-IsSolvent {s} {s'} (Step.new_block n round e) h =
      let t : State c = record s { block_number = n; round = round } in
      λ x.
        ground
          (arith, h x, OfRewards.on_initialize-SameClaims c t s' x e, block-claims c s n round x)
  Step-IsSolvent {s} {s'} (Step.elsewhere ledger estates grows e) h =
      λ x. ground (arith, h x, grows x, e, elsewhere-claims c s ledger estates x)

  -- Where the currency pallet keeps the laws of `IsLedger`, and from a state where this holds:
  -- along every history of calls (`force_unreserved_staking` apart), new blocks and moves of other
  -- pallets that take nothing reserved, every account keeps at least as much reserved balance as
  -- its stakes and its exit queues add up to.
  pub Reach-IsSolvent : {s t : State c} → Reach s t → IsSolvent s → IsSolvent t
  Reach-IsSolvent Reach.here h = h
  Reach-IsSolvent (Reach.next r step) h = Step-IsSolvent step (Reach-IsSolvent r h)
