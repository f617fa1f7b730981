-- ===== src/Metaverse/Calls.antt =====
-- pallets/metaverse/src/lib.rs: the calls of the pallet, and what other pallets call of it, as one
-- type, and the histories of its state.
use versus_project_metaverse.Prelude.{ℕ, List, ok, ◌≡◌}
use versus_project_metaverse.Primitives.{
  AccountId, Balance, RoundIndex, MetaverseId, FungibleTokenId, Perbill,
}
use versus_project_metaverse.Metaverse.Types.{Config, State, Result}
use versus_project_metaverse.Metaverse.Registry

pub data Call (c : Config) : Type 0 where
  create_metaverse : c.Origin → List ℕ → Call c
  transfer_metaverse : c.Origin → AccountId → MetaverseId → Call c
  freeze_metaverse unfreeze_metaverse destroy_metaverse : c.Origin → MetaverseId → Call c
  update_metaverse_listing_fee : c.Origin → MetaverseId → Perbill → Call c
  withdraw_from_metaverse_fund : c.Origin → MetaverseId → Call c
  -- From other pallets, with no origin.
  update_metaverse_token : MetaverseId → FungibleTokenId → Call c
  update_staking_reward : RoundIndex → Balance → Call c

unfoldable pub dispatch : (c : Config) → Call c → State c → Result (State c)
dispatch c (create_metaverse o metadata) s = Registry.create_metaverse c o metadata s
dispatch c (transfer_metaverse o to id) s = Registry.transfer_metaverse c o to id s
dispatch c (freeze_metaverse o id) s = Registry.freeze_metaverse c o id s
dispatch c (unfreeze_metaverse o id) s = Registry.unfreeze_metaverse c o id s
dispatch c (destroy_metaverse o id) s = Registry.destroy_metaverse c o id s
dispatch c (update_metaverse_listing_fee o id fee) s =
    Registry.update_metaverse_listing_fee c o id fee s
dispatch c (withdraw_from_metaverse_fund o id) s = Registry.withdraw_from_metaverse_fund c o id s
dispatch c (update_metaverse_token id currency) s = Registry.update_metaverse_token c id currency s
dispatch c (update_staking_reward round reward) s = Registry.update_staking_reward c round reward s

-- A history of the chain: calls that succeed, and changes of the states of other pallets.
pub data Reach (c : Config) (s : State c) : State c → Type 0 where
  here : Reach c s s
  called : {t u : State c} → Reach c s t → (call : Call c) → dispatch c call t ≡ ok u → Reach c s u
  elsewhere :
      {t : State c}
      → Reach c s t
      → (l : c.Ledger) (n : c.Nfts) → Reach c s (record t { ledger = l; nfts = n })
