-- ===== src/Estate/Issue.antt =====
-- pallets/estate/src/lib.rs: what the issue of undeployed land blocks stores.
use versus_project_metaverse.Prelude.{
  ℕ, zero, suc, ◌+◌, ◌*◌, ◌≤◌, ◌≡◌, refl, List, [], ◌∷◌, ok, arith, u64_max, u128_max, u32_max,
  none, some, false, nat_eq, pair_eq, saturating_mul, ◌<◌, ◌∙◌, subst,
}
use versus_project_metaverse.Prelude.Maps.{get?, insert, get?-insert, get?-insert_self}
use versus_project_metaverse.Primitives.{AccountId, UndeployedLandBlock, UndeployedLandBlockType}
use versus_project_metaverse.Estate.Types.{Config, State}
use versus_project_metaverse.Estate.Types
use versus_project_metaverse.Estate.Lands
use versus_project_metaverse.Estate.Counts.{collect_storage_fee-ledger}
use versus_project_metaverse.Estate.Blocks

-- The ids from `n` on, `k` of them.
unfoldable pub ids_from : ℕ → ℕ → List ℕ
ids_from zero n = []
ids_from (suc k) n = n ∷ ids_from k (n + 1)

-- A block as it is issued.
abbrev pub fresh_block : ℕ → ℕ → UndeployedLandBlockType → AccountId → UndeployedLandBlock
fresh_block id n type who = record {
  id = id;
  number_land_units = n;
  undeployed_land_block_type = type;
  owner = who;
  approved = none;
  is_locked = false;
}

module _ (c : Config) where
  -- Every id of a list is that of a stored block as it is issued, which the account owns and is listed
  -- as the owner of.
  abbrev pub AllIssued : AccountId → ℕ → UndeployedLandBlockType → List ℕ → State c → Type 0
  AllIssued who n type [] s = Unit
  AllIssued who n type (id ∷ ids) s =
      (get? id s.undeployed_land_blocks ≡ some (fresh_block id n type who))
      × (get? (who, id) s.undeployed_land_blocks_owner ≡ some tt)
      × AllIssued who n type ids s

  -- The blocks that a state has below an id are those of another.
  abbrev SameBelow : AccountId → ℕ → State c → State c → Type 0
  SameBelow who n s s' =
      (id : ℕ)
      → id < n
      → (get? id s'.undeployed_land_blocks ≡ get? id s.undeployed_land_blocks)
        × (get? (who, id) s'.undeployed_land_blocks_owner
            ≡ get? (who, id) s.undeployed_land_blocks_owner)

  issue_block_lem :
      (who : AccountId) (n : ℕ) (type : UndeployedLandBlockType) (s : State c)
      → s.next_undeployed_land_block_id + 1 ≤ u128_max
      → s.total_undeployed_land_unit + n ≤ u64_max
      → (s' : State c) × (Blocks.issue_block c who n type s
          ≡ ok (s.next_undeployed_land_block_id, s'))
        × (s'.next_undeployed_land_block_id ≡ s.next_undeployed_land_block_id + 1)
        × (s'.total_undeployed_land_unit ≡ s.total_undeployed_land_unit + n)
        × AllIssued who n type (s.next_undeployed_land_block_id ∷ []) s'
        × SameBelow who s.next_undeployed_land_block_id s s'
  unfolding Blocks.issue_block Blocks.get_new_undeployed_land_block_id
      Blocks.set_total_undeployed_land_unit
  issue_block_lem who n type s a b =
      let id = s.next_undeployed_land_block_id in
      let block = fresh_block id n type who in
      let s' : State c = record s {
        next_undeployed_land_block_id = id + 1;
        undeployed_land_blocks = insert id block s.undeployed_land_blocks;
        undeployed_land_blocks_owner = insert (who, id) tt s.undeployed_land_blocks_owner;
        total_undeployed_land_unit = s.total_undeployed_land_unit + n;
        events = Types.undeployed_land_block_issued who id ∷ s.events;
      } in
      (
        s',
        ground arith,
        refl,
        refl,
        (
          get?-insert_self id block s.undeployed_land_blocks,
          get?-insert_self (who, id) tt s.undeployed_land_blocks_owner,
          tt,
        ),
        λ j below. (
          ground (arith, get?-insert j id block s.undeployed_land_blocks),
          ground (arith, get?-insert (who, j) (who, id) tt s.undeployed_land_blocks_owner),
        ),
      )

  issue_blocks_lem :
      (who : AccountId) (k n : ℕ) (type : UndeployedLandBlockType) (s : State c)
      → s.next_undeployed_land_block_id + k ≤ u128_max
      → s.total_undeployed_land_unit + k * n ≤ u64_max
      → (s' : State c) × (Blocks.issue_blocks c who k n type s
          ≡ ok (ids_from k s.next_undeployed_land_block_id, s'))
        × (s'.next_undeployed_land_block_id ≡ s.next_undeployed_land_block_id + k)
        × (s'.total_undeployed_land_unit ≡ s.total_undeployed_land_unit + k * n)
        × AllIssued who n type (ids_from k s.next_undeployed_land_block_id) s'
        × SameBelow who s.next_undeployed_land_block_id s s'
  unfolding Blocks.issue_blocks ids_from
  issue_blocks_lem who zero n type s a b =
      (s, refl, omega arith, omega arith, tt, λ id below. (refl, refl))
  issue_blocks_lem who (suc k) n type s a b =
      let id = s.next_undeployed_land_block_id in
      let (t, one, next, total, (stored, owned, _), old) =
        issue_block_lem who n type s (omega (arith, a)) (omega (arith, b)) in
      let (u, rest, next', total', all, kept) =
        issue_blocks_lem who k n type t (omega (arith, a, next)) (omega (arith, b, total)) in
      let (same, same_owner) = kept id (omega (arith, next)) in
      (
        u,
        ground (arith, one, rest, next),
        omega (arith, next, next'),
        omega (arith, total, total'),
        (
          same ∙ stored,
          same_owner ∙ owned,
          subst (λ (m : ℕ). AllIssued who n type (ids_from k m) u) next all,
        ),
        λ j below.
            let (x, y) = old j below in
            let (x', y') = kept j (omega (arith, below, next)) in (x' ∙ x, y' ∙ y),
      )

  -- Issuing land blocks succeeds once the beneficiary pays the storage fee, unless the ids or the
  -- count of undeployed land units run out: the blocks get the ids that follow each other from the
  -- next one, each of them is stored under its id, neither approved nor locked, with the units, the
  -- type and the beneficiary as its owner, who is listed as its owner, and the count grows by the
  -- units of all the blocks.
  pub do_issue_undeployed_land_blocks_lem :
      (who : AccountId) (k n : ℕ) (type : UndeployedLandBlockType) (s t : State c)
      → Lands.collect_storage_fee c who (saturating_mul u32_max (saturating_mul u32_max k 2) 100) s
        ≡ ok t
      → s.next_undeployed_land_block_id + k ≤ u128_max
      → s.total_undeployed_land_unit + k * n ≤ u64_max
      → (s' : State c) × (Blocks.do_issue_undeployed_land_blocks c who k n type s
          ≡ ok (ids_from k s.next_undeployed_land_block_id, s'))
        × (s'.next_undeployed_land_block_id ≡ s.next_undeployed_land_block_id + k)
        × (s'.total_undeployed_land_unit ≡ s.total_undeployed_land_unit + k * n)
        × AllIssued who n type (ids_from k s.next_undeployed_land_block_id) s'
  unfolding Blocks.do_issue_undeployed_land_blocks
  do_issue_undeployed_land_blocks_lem who k n type s t paid a b =
      let fee = collect_storage_fee-ledger c who _ s t paid in
      let (u, issued, next, total, all, _) =
        issue_blocks_lem who k n type t (ground (arith, fee, a)) (ground (arith, fee, b)) in
      let same_next : t.next_undeployed_land_block_id ≡ s.next_undeployed_land_block_id =
        ground (arith, fee) in
      (
        u,
        ground (arith, paid, issued, fee),
        ground (arith, fee, next),
        ground (arith, fee, total),
        subst (λ (m : ℕ). AllIssued who n type (ids_from k m) u) same_next all,
      )
