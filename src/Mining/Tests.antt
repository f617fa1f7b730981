-- ===== src/Mining/Tests.antt =====
-- The theorems on pallets/mining at concrete states of a small runtime: accounts are origins, 0 is
-- the root, and the ledger counts what was deposited. A `Perbill` is taken as a number of percent.
use versus_project_metaverse.Prelude.{
  ℕ, ◌+◌, ◌*◌, ◌/◌, ◌-◌, true, false, ok, err, panic, module_error, bad_origin, refl, ◌≡◌, [], ◌∷◌,
  ◌==◌, if◌then◌else◌, arith, nat_eq, value_or, leb,
}
use versus_project_metaverse.Prelude.Maps.{get?, insert, remove, Distinct}
use versus_project_metaverse.Primitives.{mining_resource, is_valid, should_update, update}
use versus_project_metaverse.Mining.Types.{Config, State}
use versus_project_metaverse.Mining.Types
use versus_project_metaverse.Mining.Resource
use versus_project_metaverse.Mining.Rounds
use versus_project_metaverse.Mining.Calls.{dispatch}
use versus_project_metaverse.Mining.Calls
use versus_project_metaverse.Mining.RoundLaws.{round_ends}
use versus_project_metaverse.Mining.OriginLaws.{no_permission_lem, dispatch-is_mining_origin}

abbrev runtime : Config
runtime = record {
  Origin = ℕ;
  ensure_signed = λ o. if o == 0 then err bad_origin else ok o;
  ensure_root = λ o. if o == 0 then ok tt else err bad_origin;
  ensure_admin = λ o. if o == 0 then ok 1 else err bad_origin;
  Ledger = ℕ;
  free_balance = λ _ _ l. l;
  total_issuance = λ _ l. l;
  deposit = λ _ _ a l. ok (l + a);
  can_slash = λ _ _ a l. leb a l;
  slash = λ _ _ a l. l - a;
  transfer = λ _ _ _ _ l. ok l;
  transfer_keep_alive = λ _ _ _ l. ok l;
  of_perbill = λ p a. p * a / 100;
  perbill_div = λ p n. if n == 0 then panic else ok (p / n);
  bit_mining_treasury = 90;
  bit_mining_resource_id = mining_resource 0;
  treasury_staking_reward = 10;
  network_treasury_account = 91;
  storage_deposit_fee = 1;
}

-- Rounds of half a year's blocks; 4 and 5 are minting origins.
abbrev start : State runtime
start = record {
  minting_origins = (4, tt) ∷ (5, tt) ∷ [];
  round = record { current = 1; first = 20; length = 1300000 };
  mining_config = record { rate = 20; staking_reward = 30; mining_reward = 70 };
  current_mining_resource_allocation = record {
    min = 0;
    ideal = 0;
    max = 0;
    staking_allocation = 0;
    mining_allocation = 0;
  };
  mining_paused = false;
  events = [];
  ledger = 1000;
  block_number = 20;
}

abbrev second : State runtime
second = value_or start (Rounds.on_initialize runtime 1300020 start)

round_ends_example :
    (second.round.current ≡ 2)
    × (second.round.first ≡ 1300020)
    × (second.round.length ≡ 1300000)
    × (is_valid second.current_mining_resource_allocation ≡ true)
unfolding Rounds.on_initialize Rounds.new_round Rounds.round_issuance_range should_update update
round_ends_example = round_ends runtime 20 start second refl refl (omega arith) (omega arith) refl

abbrev no_length : State runtime
no_length = value_or start (Rounds.update_round_length runtime 0 0 start)

no_permission_lem_example :
    (Resource.mint runtime 6 6 10 start ≡ err (module_error Types.no_permission))
    × (Resource.burn runtime 6 6 10 start ≡ err (module_error Types.no_permission))
    × (Resource.withdraw runtime 6 7 10 start ≡ err (module_error Types.no_permission))
    × (Resource.withdraw runtime 6 6 10 start ≡ ok start)
unfolding get?
no_permission_lem_example =
    no_permission_lem runtime 6 6 6 6 7 10 start refl refl (omega arith) (omega arith)

abbrev left : State runtime
left = value_or start (dispatch runtime (Calls.remove_minting_origin 0 4) start)

dispatch-is_mining_origin_example :
    (Resource.is_mining_origin runtime 4 left ≡ false) × Distinct left.minting_origins
unfolding dispatch Resource.remove_minting_origin Resource.do_remove_minting_origin
    Resource.is_mining_origin get? insert remove
dispatch-is_mining_origin_example =
    dispatch-is_mining_origin runtime (Calls.remove_minting_origin 0 4) 4 start left
      (refl, (refl, tt)) refl
