-- ===== src/Estate/Runtime.antt =====
-- A small runtime for the tests of pallets/estate: accounts are origins, 0 is the root, the ledger
-- counts what was transferred, and every token is held by account 5.
use versus_project_metaverse.Prelude.{
  ℕ, ◌+◌, ◌-◌, ◌^◌, false, [], ◌∷◌, ok, err, bad_origin, ◌==◌, if◌then◌else◌, value_or,
}
use versus_project_metaverse.Primitives.{Coordinate}
use versus_project_metaverse.Estate.Types.{Config, State}
use versus_project_metaverse.Estate.Calls.{dispatch}
use versus_project_metaverse.Estate.Calls

abbrev pub runtime : Config
runtime = record {
  Origin = ℕ;
  ensure_signed = λ o. if o == 0 then err bad_origin else ok o;
  ensure_root = λ o. if o == 0 then ok tt else err bad_origin;
  Ledger = ℕ;
  transfer = λ _ _ a l. ok (l + a);
  reserve = λ _ _ l. l;
  unreserve = λ _ _ l. l;
  Nfts = ℕ;
  nft_ownership = λ who _ _. ok (who == 5);
  mint_token = λ _ _ _ _ n. ok (n, n + 1);
  burn_nft = λ _ _ n. n;
  transfer_nft = λ _ _ _ n. n;
  set_lock_nft = λ _ _ n. ok n;
  Metaverses = Unit;
  metaverse_ownership = λ who _ _. who == 5;
  get_metaverse_land_class = λ _ _. ok 15;
  get_metaverse_estate_class = λ _ _. ok 16;
  network_treasury = 90;
  Auctions = Unit;
  check_item_in_auction = λ _ _. false;
  estate_account = λ id. 1000 + id;
  of_percent = λ _ a. a;
  block_number_to_balance = λ n. n;
  default_max_bound = (2 ^ 31 - 100, 2 ^ 31 + 100);
  network_fee = 1;
  storage_deposit_fee = 1;
  max_offers_per_estate = 2;
  min_lease_price_per_block = 1;
  max_lease_period = 100;
  lease_offer_expiry_period = 6;
}

abbrev pub empty : State runtime
empty = record {
  all_land_units_count = 0;
  total_undeployed_land_unit = 0;
  land_units = [];
  next_estate_id = 0;
  all_estates_count = 0;
  estates = [];
  estate_owner = [];
  next_undeployed_land_block_id = 0;
  undeployed_land_blocks = [];
  undeployed_land_blocks_owner = [];
  estate_leases = [];
  estate_leasors = [];
  estate_lease_offers = [];
  events = [];
  ledger = 0;
  nfts = 0;
  metaverses = tt;
  auctions = tt;
  block_number = 10;
}

abbrev pub run : Calls.Call runtime → State runtime → State runtime
run call s = value_or s (dispatch runtime call s)

abbrev pub origin_unit : Coordinate
origin_unit = (2 ^ 31, 2 ^ 31)

abbrev pub next_unit : Coordinate
next_unit = (2 ^ 31, 2 ^ 31 + 1)

-- The root mints estate 0 of two units for account 5.
abbrev pub with_estate : State runtime
with_estate = run (Calls.mint_estate 0 5 1 (origin_unit ∷ next_unit ∷ [])) empty
