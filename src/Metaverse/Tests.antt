-- ===== src/Metaverse/Tests.antt =====
-- The theorems on pallets/metaverse at concrete states of a small runtime: accounts are origins, 0 is
-- the council, and the ledger counts what was transferred.
use versus_project_metaverse.Prelude.{
  ℕ, ◌+◌, ◌≡◌, [], ◌∷◌, some, ok, err, bad_origin, ◌==◌, if◌then◌else◌, value_or, refl, arith,
  nat_eq, pair_eq,
}
use versus_project_metaverse.Prelude.Maps.{get?, insert, remove}
use versus_project_metaverse.Prelude.Totals.{total}
use versus_project_metaverse.Prelude.Lists.{length}
use versus_project_metaverse.Primitives.{AccountId, MetaverseInfo}
use versus_project_metaverse.Estate.Coordinates.{to_be_bytes}
use versus_project_metaverse.Metaverse.Types.{Config, State}
use versus_project_metaverse.Metaverse.Registry
use versus_project_metaverse.Metaverse.Calls.{dispatch, Reach, here, called}
use versus_project_metaverse.Metaverse.Calls
use versus_project_metaverse.Metaverse.Laws.{IsRegistered}
use versus_project_metaverse.Metaverse.History.{Reach-IsRegistered, signing_owner_lem}

abbrev runtime : Config
runtime = record {
  Origin = ℕ;
  ensure_signed = λ o. if o == 0 then err bad_origin else ok o;
  ensure_council = λ o. if o == 0 then ok tt else err bad_origin;
  Ledger = ℕ;
  free_balance = λ _ _. 1000;
  minimum_balance = 1;
  transfer = λ _ _ a l. ok (l + a);
  set_lock = λ _ _ l. l;
  remove_lock = λ _ l. l;
  Nfts = ℕ;
  create_token_class = λ _ _ _ n. ok (n, n + 1);
  get_total_issuance = λ _ _. ok 0;
  network_treasury = 90;
  treasury_account = 91;
  metaverse_account = λ id. 100 + id;
  max_metaverse_metadata = 10;
  min_contribution = 5;
  storage_deposit_fee = 1;
  from_percent = λ p. p;
}

abbrev empty : State runtime
empty = record {
  next_metaverse_id = 0;
  metaverses = [];
  metaverse_owner = [];
  all_metaverses_count = 0;
  freezed_metaverses = [];
  round = record { current = 0; first = 0; length = 20 };
  registered_metaverse = [];
  metaverse_staking_snapshots = [];
  metaverse_round_stake = [];
  staking_info = [];
  events = [];
  ledger = 0;
  nfts = 0;
}

abbrev run : Calls.Call runtime → State runtime → State runtime
run call s = value_or s (dispatch runtime call s)

-- Account 5 creates metaverse 0 and gives it to account 6.
abbrev created : State runtime
created = run (Calls.create_metaverse 5 (1 ∷ [])) empty

abbrev given : State runtime
given = run (Calls.transfer_metaverse 5 6 0) created

empty-IsRegistered : IsRegistered empty
unfolding get? total
empty-IsRegistered = record {
  indexed = record { owners = λ w i. refl; distinct = tt; distinct_owners = tt };
  ids = tt;
  count = omega arith;
  fees = λ i info e. absurd (ground arith);
}

given-Reach : Reach runtime empty given
unfolding dispatch Registry.create_metaverse Registry.do_create_metaverse Registry.new_metaverse
    Registry.mint_metaverse_land_class Registry.mint_metaverse_estate_class
    Registry.land_class_attributes Registry.estate_class_attributes Registry.transfer_metaverse
    to_be_bytes length get? insert remove
given-Reach =
    called (called here (Calls.create_metaverse 5 (1 ∷ [])) refl) (Calls.transfer_metaverse 5 6 0)
      refl

Reach-IsRegistered_example : IsRegistered given
Reach-IsRegistered_example =
    Reach-IsRegistered runtime (omega arith) empty given given-Reach empty-IsRegistered

created-Reach : Reach runtime empty created
unfolding dispatch Registry.create_metaverse Registry.do_create_metaverse Registry.new_metaverse
    Registry.mint_metaverse_land_class Registry.mint_metaverse_estate_class
    Registry.land_class_attributes Registry.estate_class_attributes to_be_bytes length get? insert
created-Reach = called here (Calls.create_metaverse 5 (1 ∷ [])) refl

signing_owner_lem_example :
    (who : AccountId) × (runtime.ensure_signed 5 ≡ ok who)
    × ((info : MetaverseInfo) × (get? 0 created.metaverses ≡ some info) × (info.owner ≡ who))
unfolding dispatch Registry.create_metaverse Registry.do_create_metaverse Registry.new_metaverse
    Registry.mint_metaverse_land_class Registry.mint_metaverse_estate_class
    Registry.land_class_attributes Registry.estate_class_attributes Registry.transfer_metaverse
    to_be_bytes length get? insert remove
signing_owner_lem_example =
    signing_owner_lem runtime (Calls.transfer_metaverse 5 6 0) 5 0 created given
      (Reach-IsRegistered runtime (omega arith) empty created created-Reach empty-IsRegistered) refl
      refl
