-- ===== src/Lib.antt =====
-- Verification library of Metaverse.Network, a Substrate chain in Rust.
--
-- The chain is a set of pallets, each with storage of its own, calls that change it, and a hook that
-- runs at the start of a block. The pallets call each other through traits. Modelled are:
--
-- - pallets/economy/src/lib.rs (Economy): staking on oneself, on estates and on innovation, the exit
--   queues between unstaking and withdrawing, and the reward pool with its shares and eras.
--     Economy/Types      Error, Event, Config and the storage items
--     Economy/Staking    stake, unstake
--     Economy/Queues     unstake_new_estate_owner, withdraw_unreserved, withdraw_estate_unreserved,
--                        force_unstake, force_unreserved_staking
--     Economy/Innovation stake_on_innovation, unstake_on_innovation, claim_reward
--     Economy/Shares     add_share, remove_share, claim_rewards, claim_one, reward_to_withdraw,
--                        reward_payout
--     Economy/Eras       on_initialize, get_era_index, update_current_era, accumulate_reward,
--                        update_era_config
--     Economy/Power      the exchange of power, which no call reaches
--     Economy/Calls      the calls as one type with `dispatch`, the steps of the chain, and the
--                        histories that they make
--   The other files of Economy hold its invariants: Claims and Solvency (what is staked or queued
--   stays reserved), Tallies and TallyCalls (the stored totals), Minimum, ShareTotals, Rewards (what
--   the pool pays), EraLaws, and Lifecycle (a stake on its way in and out).
-- - pallets/mining/src/lib.rs and mining.rs (Mining): Rounds has the rounds of the chain and what they
--   issue, Resource the calls that mint, burn and move the mining resource for its origins, Calls all
--   of them as one type; the theorems are in RoundLaws and OriginLaws. The economy pallet reads the
--   round of this pallet through its round handler.
-- - pallets/emergency/src/lib.rs (Emergency): the stopped functions, maintenance mode and the filters.
-- - pallets/spp/src/lib.rs and utils.rs (Spp), in part: Pools has create_pool, deposit and the fees,
--   Redeem the call redeem with its three queues, Unlock their payment (handle_redeem_requests and
--   update_queue_request). Booking, Unlocking, Filing and Redeeming are about the queues, Backing about the
--   ledgers, Exchange about receipts. Rounds lifts what one payment keeps to a whole era.
-- - pallets/estate/src/lib.rs (Estate): land units, estates, undeployed land blocks and leases.
--     Estate/Types       Error, Event, Config and the storage items
--     Estate/Coordinates the tests on coordinates, the properties of tokens
--     Estate/Lands       mint_land_unit, mint_land, mint_lands, transfer_land, the fees
--     Estate/Estates     mint_estate, create_estate, transfer_estate, dissolve_estate,
--                        add_land_unit_to_estate, remove_land_unit_from_estate
--     Estate/Blocks      undeployed land blocks from their issue to deploy_land_block
--     Estate/Leases      offers, leases, collect_rent
--     Estate/Handler     what other pallets ask, and remove_all_estate_storage
--     Estate/Calls       the calls as one type with `dispatch`, and the histories that they make
--   Frames has what the functions on land units leave alone; Counts, EstateCounts, BlockCounts, Deploy
--   and CountCalls are about the counts, BlockOwners and OwnerCalls about the owners of blocks,
--   LeaseLaws and LeaseCalls about leasors, Rent about the rent of a lease, OwnerLaws about what an
--   owner alone may do, Strands, StrandEstates and StrandCalls about an estate without an owner,
--   CoordinateLaws and Metadata about coordinates and tokens, Issue about the issue of blocks. An i32
--   is rendered by its distance from i32::MIN, so that 2 ^ 31 stands for 0.
-- - pallets/metaverse/src/lib.rs (Metaverse): Registry has the calls and what other pallets ask, Calls
--   all of them as one type; Laws, CallLaws and History are about owners, ids, the count and the fees.
-- - runtime/pioneer/src/lib.rs (EstateStaking): the economy pallet with the estate pallet behind its
--   estate handler.
-- - primitives/metaverse/src/lib.rs, estate.rs and staking.rs, traits/core-primitives/src/lib.rs
--   (Primitives): the types that these pallets share.
-- - Prelude: comparisons, the outcome of a call, storage maps, checked and saturating arithmetic, and
--   totals over a map with the laws that the components use.
--
-- How the code is rendered. A call is a function from a state to an outcome: `ok` with the next state,
-- `err` with the error of the pallet or of the frame, or `panic`. The runtime rolls the storage back
-- where a call fails, so an error carries no state. `?` and `ensure!` are the bind of a do block.
-- Where a call has a branch or a closure of some size, it is a function of its own. Events are kept,
-- the newest first; weights and logging are left out. A storage map is a list of pairs with each key
-- once. A loop over a `BTreeMap` follows that list, while the code follows the order of the keys; no
-- theorem depends on the order. Numbers are natural numbers, and the width of the type is written out
-- where the code can leave it: `checked_add` and the `saturating_` functions take the greatest number
-- of the type, U256 the one of its own, and plain additions and subtractions on machine integers wrap
-- as in a release build.
--
-- Not under the repository, and so parameters, the fields of each `Config`: origins and their checks,
-- the balances of the currency pallets, `Perbill` arithmetic, UTF-8. The handlers of other pallets and
-- the tables of the runtime (call filters, names) are parameters too; where the code drops the result
-- of a call, the parameter is the state that the call leaves. What the economy pallet relies on in a
-- `ReservableCurrency` is the record `IsLedger`, which Economy/Runtime fills for a small ledger.
--
-- There is no fuel: the loops run over finite maps, lists and counts. Not modelled are the other
-- pallets (reward, governance, auction, nft, continuum, crowdloan, currencies, evm-mapping,
-- asset-manager), the bridge, the precompiles, the runtimes and the node; of the spp pallet boosting,
-- its rewards and their distribution, and update_era_config; of the economy pallet the storage of
-- accepted domains, which nothing reads; of the estate pallet its genesis and rate.rs, the rates of
-- issue, which no call uses; of the metaverse pallet its two storage migrations.
pub mod Prelude
pub mod Primitives
pub mod Economy
pub mod Mining
pub mod Emergency
pub mod Spp
pub mod Estate
pub mod Metaverse
pub mod EstateStaking
