-- ===== src/Economy/Runtime.antt =====
-- A small runtime for the tests of pallets/economy: accounts are origins, 0 is the root, and the
-- ledger keeps a free and a reserved balance of each account.
use versus_project_metaverse.Prelude.{
  ℕ, ◌+◌, ◌-◌, [], none, ok, err, bad_origin, external, ◌≡◌, arith, refl, sym, ap, Bool-cases,
  ok-injective, inl, inr, leb, ◌==◌, if◌then◌else◌, min,
}
use versus_project_metaverse.Primitives.{AccountId, Balance, FungibleTokenId}
use versus_project_metaverse.Economy.Types.{Config, State, Result}
use versus_project_metaverse.Economy.Claims.{IsLedger}

pub record Book : Type 0 where
  pub free : AccountId → Balance
  pub reserved : AccountId → Balance

abbrev move_in : AccountId → Balance → Book → Book
move_in who a l = record {
  free = λ x. if who == x then l.free x - a else l.free x;
  reserved = λ x. l.reserved x + (if who == x then a else 0);
}

abbrev reserve : AccountId → Balance → Book → Result Book
reserve who a l = if leb a (l.free who) then ok (move_in who a l) else err (external 1)

abbrev unreserve : AccountId → Balance → Book → Book
unreserve who a l = record {
  free = λ x. l.free x + (if who == x then min a (l.reserved x) else 0);
  reserved = λ x. l.reserved x - (if who == x then a else 0);
}

abbrev transfer : FungibleTokenId → AccountId → AccountId → Balance → Book → Result Book
transfer currency from to a l =
    if leb a (l.free from)
    then ok (record l {
      free = λ x. (l.free x - (if from == x then a else 0)) + (if to == x then a else 0);
    })
    else err (external 2)

-- Estate 7 is account 5's, of three land units.
abbrev pub runtime : Config
runtime = record {
  Origin = ℕ;
  ensure_signed = λ o. if o == 0 then err bad_origin else ok o;
  ensure_root = λ o. if o == 0 then ok tt else err bad_origin;
  Ledger = Book;
  free_balance = λ who l. l.free who;
  reserved_balance = λ who l. l.reserved who;
  reserve = reserve;
  unreserve = unreserve;
  transfer = transfer;
  Estates = AccountId;
  check_estate = λ id _. ok (id == 7);
  check_estate_ownership = λ who id owner. ok ((who == owner));
  get_total_land_units = λ _ _. 3;
  minimum_stake = 10;
  maximum_estate_stake = 1000;
  power_amount_per_block = 5;
  reward_payout_account = 99;
}

reserve_reserved :
    (who x : AccountId) (a : Balance) (l l' : Book)
    → reserve who a l ≡ ok l'
    → l'.reserved x ≡ l.reserved x + (if who == x then a else 0)
reserve_reserved who x a l l' e = elim (Bool-cases (leb a (l.free who))) [
  | inl enough ↦ ap (λ (b : Book). b.reserved x) (sym (ok-injective (rw enough at e)))
  | inr short ↦ ground arith
]

transfer_reserved :
    (currency : FungibleTokenId) (from to x : AccountId) (a : Balance) (l l' : Book)
    → transfer currency from to a l ≡ ok l'
    → l'.reserved x ≡ l.reserved x
transfer_reserved currency from to x a l l' e = elim (Bool-cases (leb a (l.free from))) [
  | inl enough ↦ ap (λ (b : Book). b.reserved x) (sym (ok-injective (rw enough at e)))
  | inr short ↦ ground arith
]

pub runtime-IsLedger : IsLedger runtime
runtime-IsLedger = record {
  reserve_reserved = reserve_reserved;
  unreserve_reserved = λ who x a l. refl;
  transfer_reserved = transfer_reserved;
}

abbrev pub empty : State runtime
empty = record {
  bit_power_exchange_rate = 0;
  power_balance = [];
  staking_info = [];
  estate_staking_info = [];
  exit_queue = [];
  estate_exit_queue = [];
  total_stake = 0;
  total_estate_stake = 0;
  innovation_staking_info = [];
  total_innovation_staking = 0;
  shares_and_withdrawn_rewards = [];
  staking_reward_pool_info = none;
  innovation_staking_exit_queue = [];
  pending_rewards = [];
  current_era = 0;
  last_era_updated_block = 0;
  update_era_frequency = 0;
  estimated_staking_reward_per_era = 0;
  events = [];
  ledger = record { free = λ _. 1000; reserved = λ _. 0 };
  estates = 5;
  round = record { current = 1; first = 1; length = 20 };
  block_number = 4;
}
