-- ===== src/Spp/Types.antt =====
-- pallets/spp/src/lib.rs and utils.rs: the errors, the events of the modelled calls, the
-- configuration and the storage that they use.
use versus_project_metaverse.Prelude.{
  ℕ, Bool, true, false, Option, List, ◌∷◌, Outcome, module_error, err, ◌≡◌, ◌↔◌, ◌==◌, Eq, arith,
}
use versus_project_metaverse.Prelude.Maps.{Map}
use versus_project_metaverse.Primitives.{AccountId, Balance, FungibleTokenId}

abbrev pub PoolId : Type 0
PoolId = ℕ

abbrev pub QueueId : Type 0
QueueId = ℕ

-- primitives/metaverse/src/lib.rs: `StakingRound`, each a u32.
pub data StakingRound : Type 0 where
  era round epoch hour : ℕ → StakingRound

abbrev pub staking_round_beq : StakingRound → StakingRound → Bool
staking_round_beq (era a) (era b) = a == b
staking_round_beq (round a) (round b) = a == b
staking_round_beq (epoch a) (epoch b) = a == b
staking_round_beq (hour a) (hour b) = a == b
staking_round_beq _ _ = false

pub staking_round_beq_iff : (a b : StakingRound) → (staking_round_beq a b ≡ true) ↔ (a ≡ b)
staking_round_beq_iff (era a) (era b) = ground arith
staking_round_beq_iff (round a) (round b) = ground arith
staking_round_beq_iff (epoch a) (epoch b) = ground arith
staking_round_beq_iff (hour a) (hour b) = ground arith
staking_round_beq_iff _ _ = ground arith

instance abbrev pub staking_round_eq : Eq StakingRound
staking_round_eq = record { beq = staking_round_beq; beq_iff = staking_round_beq_iff }

-- `Error<T>`
pub data Error : Type 0 where
  no_permission currency_is_not_supported no_available_pool_id pool_does_not_exist : Error
  overflowed below_minimum_redeem no_current_staking_round unexpected too_many_redeems : Error
  arithmetic_overflow not_support_token_type unlock_duration_not_found : Error
  staking_round_not_found staking_round_redeem_not_found : Error
  user_currency_redeem_queue_not_found currency_redeem_queue_not_found : Error
  invalid_last_era_updated_block failed_to_process_redemption insufficient_fund : Error
  max_votes_reached origins_already_exist origin_does_not_exists invalid_rate : Error

-- The events of pools and redemptions.
pub data Event : Type 0 where
  pool_created : AccountId → PoolId → FungibleTokenId → Event
  deposited redeemed : AccountId → PoolId → Balance → Event
  redeem_success : QueueId → FungibleTokenId → AccountId → Balance → Event

abbrev pub Result : Type 0 → Type 0
Result A = Outcome Error A

abbrev pub fail : {A : Type 0} → Error → Result A
fail e = err (module_error e)

-- The associated types of `Config`. A `Rate` is only multiplied with an amount.
pub record Config : Type 1 where
  pub Origin : Type 0
  pub ensure_signed : Origin → Result AccountId
  -- `MultiCurrency`
  pub Ledger : Type 0
  pub free_balance : FungibleTokenId → AccountId → Ledger → Balance
  pub total_balance : FungibleTokenId → AccountId → Ledger → Balance
  pub minimum_balance : FungibleTokenId → Balance
  pub total_issuance : FungibleTokenId → Ledger → Balance
  pub transfer : FungibleTokenId → AccountId → AccountId → Balance → Ledger → Result Ledger
  pub deposit : FungibleTokenId → AccountId → Balance → Ledger → Result Ledger
  pub withdraw : FungibleTokenId → AccountId → Balance → Ledger → Result Ledger
  pub Rate : Type 0
  pub saturating_mul_int : Rate → Balance → Balance
  -- `CurrencyIdConversion`
  pub convert_to_rcurrency : FungibleTokenId → Option FungibleTokenId
  pub convert_to_currency : FungibleTokenId → Option FungibleTokenId
  pub pool_account : AccountId
  pub maximum_queue : ℕ

-- utils.rs: `PoolInfo`
pub record PoolInfo (c : Config) : Type 0 where
  pub creator : AccountId
  pub commission : c.Rate
  pub currency_id : FungibleTokenId
  pub max : ℕ

-- Of a user, or of a round, and a currency: what is to be unlocked and the ids of its requests. The
-- entry of a round repeats the currency.
abbrev pub Requests : Type 0 → Type 0
Requests T = Balance × (List QueueId × T)

-- The storage that pools and redemptions use. The newest event is first.
pub record State (c : Config) : Type 0 where
  pub next_pool_id : PoolId
  pub deposit_rate : c.Rate
  pub redeem_rate : c.Rate
  pub pool : Map PoolId (PoolInfo c)
  pub pool_ledger : Map PoolId Balance
  pub network_ledger : Map FungibleTokenId Balance
  pub minimum_redeem : Map FungibleTokenId Balance
  pub staking_round_redeem_queue : Map (StakingRound × FungibleTokenId) (Requests FungibleTokenId)
  pub user_currency_redeem_queue : Map (AccountId × FungibleTokenId) (Requests (Unit {0}))
  pub currency_redeem_queue : Map (FungibleTokenId × QueueId) (AccountId × (Balance × StakingRound))
  pub unlock_duration : Map FungibleTokenId StakingRound
  pub current_staking_round : Map FungibleTokenId StakingRound
  pub last_staking_round : Map FungibleTokenId StakingRound
  pub queue_next_id : Map FungibleTokenId QueueId
  pub iteration_limit : ℕ
  pub currency_network_fee : Map FungibleTokenId Balance
  pub events : List Event
  pub ledger : c.Ledger

abbrev pub deposit_event : {c : Config} → Event → State c → State c
deposit_event e s = record s { events = e ∷ s.events }
