-- ===== src/Economy/Solvency/Innovation.antt =====
-- pallets/economy/src/lib.rs: innovation staking against the claims on the reserved balances. The
-- shares and the rewards are no claims.
use versus_project_metaverse.Prelude.{
  ◌+◌, ◌≡◌, Option, none, some, ok, arith, nat_eq, pair_eq, u32_max, refl, Outcome-cases, >>=-eq_ok,
  inl, inr, min, false,
}
use versus_project_metaverse.Prelude.Maps.{get?, get_or, contains_key}
use versus_project_metaverse.Prelude.Totals.{total-insert, total-remove}
use versus_project_metaverse.Primitives.{AccountId, Balance, RoundIndex}
use versus_project_metaverse.Economy.Types
use versus_project_metaverse.Economy.Claims.{IsLedger, of_account, of_exit, claims, IsSolvent}
use versus_project_metaverse.Economy.Staking.{split_stake}
use versus_project_metaverse.Economy.Shares.{
  Withdrawn, add_share, claim_from, claim_rewards, remove_from, remove_share,
}
use versus_project_metaverse.Economy.Innovation.{
  add_innovation, settle_innovation, stake_on_innovation, unstake_on_innovation,
}

-- Nothing but the shares, the pool and the pending rewards differs.
abbrev pub SameClaims : {c : Types.Config} → AccountId → Types.State c → Types.State c → Type 0
SameClaims x s s' = (claims x s' ≡ claims x s) × (s'.ledger ≡ s.ledger)

module _ (c : Types.Config) where
  pub add_share-SameClaims :
      (who : AccountId) (a : Balance) (s s' : Types.State c) (x : AccountId)
      → add_share c who a s ≡ ok s'
      → SameClaims x s s'
  unfolding add_share claims
  add_share-SameClaims who a s s' x e = ground arith

  pub claim_from-SameClaims :
      (who : AccountId) (i : Option (Balance × Withdrawn)) (p : Option Types.PoolInfo)
      (s s' : Types.State c) (x : AccountId)
      → claim_from c who i p s ≡ ok s'
      → SameClaims x s s'
  unfolding claim_from claims
  claim_from-SameClaims who none p s s' x e = ground arith
  claim_from-SameClaims who (some i) none s s' x e = ground arith
  claim_from-SameClaims who (some i) (some p) s s' x e = ground arith

  pub remove_from-SameClaims :
      (who : AccountId) (a : Balance) (i : Option (Balance × Withdrawn)) (s s' : Types.State c)
      (x : AccountId)
      → remove_from c who a i s ≡ ok s'
      → SameClaims x s s'
  unfolding remove_from claims
  remove_from-SameClaims who a none s s' x e = ground arith
  remove_from-SameClaims who a (some i) s s' x e = ground arith

  pub claim_rewards-SameClaims :
      (who : AccountId) (s s' : Types.State c) (x : AccountId)
      → claim_rewards c who s ≡ ok s'
      → SameClaims x s s'
  unfolding claim_rewards
  claim_rewards-SameClaims who s s' x e =
      claim_from-SameClaims who (get? who s.shares_and_withdrawn_rewards) s.staking_reward_pool_info
        s s' x e

  pub remove_share-SameClaims :
      (who : AccountId) (a : Balance) (s s' : Types.State c) (x : AccountId)
      → remove_share c who a s ≡ ok s'
      → SameClaims x s s'
  unfolding remove_share
  remove_share-SameClaims who a s s' x e = elim (Outcome-cases (claim_rewards c who s)) [
    | inl (t, claimed) ↦
        let info = get? who t.shares_and_withdrawn_rewards in
        ground (
          arith,
          claimed,
          claim_rewards-SameClaims who s t x claimed,
          remove_from-SameClaims who a info t s' x,
        )
    | inr failed ↦ ground (arith, failed)
  ]

  pub stake_on_innovation-IsSolvent :
      IsLedger c
      → (o : c.Origin) (amount : Balance) (s s' : Types.State c)
      → stake_on_innovation c o amount s ≡ ok s'
      → IsSolvent s
      → IsSolvent s'
  unfolding stake_on_innovation add_innovation claims
  stake_on_innovation-IsSolvent laws o amount s s' e h x =
      let (who, signed, e') = >>=-eq_ok (c.ensure_signed o) _ e in
      let staked = get_or 0 who s.innovation_staking_info in
      elim (Outcome-cases (c.reserve who amount s.ledger)) [
        | inl (l, reserved) ↦
            let t = add_innovation c who (staked + amount) amount l s in
            elim (Outcome-cases (add_share c who amount t)) [
              | inl (u, shared) ↦ ground (
                arith,
                reserved,
                shared,
                h x,
                add_share-SameClaims who amount t u x shared,
                laws.reserve_reserved who x amount s.ledger l,
                total-insert (of_account x) who (staked + amount) s.innovation_staking_info,
              )
              | inr failed ↦ ground (arith, reserved, failed)
            ]
        | inr failed ↦ ground (arith, failed)
      ]

  settle_innovation-claims :
      (who x : AccountId) (amount remaining to_unstake : Balance) (s : Types.State c)
      → split_stake c.minimum_stake (get_or 0 who s.innovation_staking_info) amount
        ≡ ok (remaining, to_unstake)
      → contains_key (who, min (s.round.current + 28) u32_max) s.innovation_staking_exit_queue
        ≡ false
      → claims x (settle_innovation c who remaining to_unstake s) ≡ claims x s
  unfolding settle_innovation split_stake claims
  settle_innovation-claims who x amount remaining to_unstake s e queued =
      let key : AccountId × RoundIndex = (who, min (s.round.current + 28) u32_max) in
      ground (
        arith,
        total-insert (of_account x) who remaining s.innovation_staking_info,
        total-remove (of_account x) who s.innovation_staking_info,
        total-insert (of_exit x) key to_unstake s.innovation_staking_exit_queue,
      )

  settle_innovation-ledger :
      (who : AccountId) (r u : Balance) (s : Types.State c)
      → (settle_innovation c who r u s).ledger ≡ s.ledger
  unfolding settle_innovation
  settle_innovation-ledger who r u s = refl

  deposit-claims :
      (x : AccountId) (event : Types.Event) (s : Types.State c)
      → claims x (Types.deposit_event event s) ≡ claims x s
  unfolding claims
  deposit-claims x event s = refl

  pub unstake_on_innovation-IsSolvent :
      (o : c.Origin) (amount : Balance) (s s' : Types.State c)
      → unstake_on_innovation c o amount s ≡ ok s'
      → IsSolvent s
      → IsSolvent s'
  unfolding unstake_on_innovation
  unstake_on_innovation-IsSolvent o amount s s' e h x =
      let (who, signed, e') = >>=-eq_ok (c.ensure_signed o) _ e in
      let staked = get_or 0 who s.innovation_staking_info in
      elim (Outcome-cases (split_stake c.minimum_stake staked amount)) [
        | inl ((r, u), split) ↦
            let t = settle_innovation c who r u s in
            elim (Outcome-cases (remove_share c who u t)) [
              | inl (v, removed) ↦ ground (
                arith,
                split,
                removed,
                h x,
                settle_innovation-claims who x amount r u s split,
                remove_share-SameClaims who u t v x removed,
                settle_innovation-ledger who r u s,
                deposit-claims x (Types.unstaked_innovation who amount) v,
              )
              | inr failed ↦ ground (arith, split, failed)
            ]
        | inr failed ↦ ground (arith, failed)
      ]
