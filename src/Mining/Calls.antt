-- ===== src/Mining/Calls.antt =====
-- pallets/mining/src/lib.rs: the calls of the pallet as one type.
use versus_project_metaverse.Primitives.{AccountId, Balance, BlockNumber, MiningResourceRateInfo}
use versus_project_metaverse.Mining.Types.{Config, State, Result}
use versus_project_metaverse.Mining.Resource
use versus_project_metaverse.Mining.Rounds

pub data Call (c : Config) : Type 0 where
  mint burn : c.Origin → AccountId → Balance → Call c
  deposit : c.Origin → Balance → Call c
  withdraw : c.Origin → AccountId → Balance → Call c
  add_minting_origin remove_minting_origin : c.Origin → AccountId → Call c
  update_round_length : c.Origin → BlockNumber → Call c
  update_mining_issuance_config : c.Origin → MiningResourceRateInfo → Call c
  pause_mining_round unpause_mining_round : c.Origin → Call c

unfoldable pub dispatch : (c : Config) → Call c → State c → Result (State c)
dispatch c (mint o who amount) s = Resource.mint c o who amount s
dispatch c (burn o who amount) s = Resource.burn c o who amount s
dispatch c (deposit o amount) s = Resource.deposit c o amount s
dispatch c (withdraw o dest amount) s = Resource.withdraw c o dest amount s
dispatch c (add_minting_origin o who) s = Resource.add_minting_origin c o who s
dispatch c (remove_minting_origin o who) s = Resource.remove_minting_origin c o who s
dispatch c (update_round_length o length) s = Rounds.update_round_length c o length s
dispatch c (update_mining_issuance_config o config) s =
    Rounds.update_mining_issuance_config c o config s
dispatch c (pause_mining_round o) s = Rounds.pause_mining_round c o s
dispatch c (unpause_mining_round o) s = Rounds.unpause_mining_round c o s
