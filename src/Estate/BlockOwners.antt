-- ===== src/Estate/BlockOwners.antt =====
-- pallets/estate/src/lib.rs: `UndeployedLandBlocksOwner` lists each undeployed land block under its
-- owner.
use versus_project_metaverse.Prelude.{
  refl, ℕ, zero, suc, ◌≡◌, false, none, some, List, ok, arith, nat_eq, pair_eq, inl, inr,
  Option-cases, >>=-eq_ok,
}
use versus_project_metaverse.Prelude.Maps.{get?, insert, remove}
use versus_project_metaverse.Prelude.Owners.{
  Indexed, Indexed-add, Indexed-rewrite, Indexed-drop, Indexed-move,
}
use versus_project_metaverse.Prelude.Keys.{Below-fresh}
use versus_project_metaverse.Primitives.{
  AccountId, UndeployedLandBlockId, UndeployedLandBlock, UndeployedLandBlockType,
}
use versus_project_metaverse.Estate.Types.{Config, State}
use versus_project_metaverse.Estate.Lands
use versus_project_metaverse.Estate.Blocks
use versus_project_metaverse.Estate.Counts.{IsCounted, collect_storage_fee-ledger}
use versus_project_metaverse.Estate.BlockCounts.{issue_block-IsCounted}

abbrev pub owner_of : UndeployedLandBlock → AccountId
owner_of block = block.owner

-- An account has an entry for a block exactly when it owns the block.
abbrev pub IsIndexed : {c : Config} → State c → Type 0
IsIndexed s = Indexed owner_of s.undeployed_land_blocks s.undeployed_land_blocks_owner

module _ (c : Config) where
  pub IsIndexed-writes :
      (s s' : State c)
      → s'.undeployed_land_blocks ≡ s.undeployed_land_blocks
      → s'.undeployed_land_blocks_owner ≡ s.undeployed_land_blocks_owner
      → IsIndexed s
      → IsIndexed s'
  IsIndexed-writes s s' p q h = ground (arith, h, p, q)

  -- A block that is written again with its owner.
  pub rewrite-IsIndexed :
      (id : UndeployedLandBlockId) (b b' : UndeployedLandBlock) (s s' : State c)
      → get? id s.undeployed_land_blocks ≡ some b
      → b'.owner ≡ b.owner
      → s'.undeployed_land_blocks ≡ insert id b' s.undeployed_land_blocks
      → s'.undeployed_land_blocks_owner ≡ s.undeployed_land_blocks_owner
      → IsIndexed s
      → IsIndexed s'
  rewrite-IsIndexed id b b' s s' found same p q h =
      let kept =
        Indexed-rewrite owner_of id b b' s.undeployed_land_blocks s.undeployed_land_blocks_owner
          found same h in
      ground (arith, kept, p, q)

  -- A new block.
  add-IsIndexed :
      (id : UndeployedLandBlockId) (b : UndeployedLandBlock) (s s' : State c)
      → get? id s.undeployed_land_blocks ≡ none
      → s'.undeployed_land_blocks ≡ insert id b s.undeployed_land_blocks
      → s'.undeployed_land_blocks_owner ≡ insert (b.owner, id) tt s.undeployed_land_blocks_owner
      → IsIndexed s
      → IsIndexed s'
  add-IsIndexed id b s s' fresh p q h =
      let kept =
        Indexed-add owner_of id b s.undeployed_land_blocks s.undeployed_land_blocks_owner fresh h in
      ground (arith, kept, p, q)

  -- A block that is taken away.
  drop-IsIndexed :
      (id : UndeployedLandBlockId) (b : UndeployedLandBlock) (s s' : State c)
      → get? id s.undeployed_land_blocks ≡ some b
      → s'.undeployed_land_blocks ≡ remove id s.undeployed_land_blocks
      → s'.undeployed_land_blocks_owner ≡ remove (b.owner, id) s.undeployed_land_blocks_owner
      → IsIndexed s
      → IsIndexed s'
  drop-IsIndexed id b s s' found p q h =
      let kept =
        Indexed-drop owner_of id b s.undeployed_land_blocks s.undeployed_land_blocks_owner found
          h in
      ground (arith, kept, p, q)

  -- A block that changes hands.
  move-IsIndexed :
      (id : UndeployedLandBlockId) (b : UndeployedLandBlock) (to : AccountId) (s s' : State c)
      → get? id s.undeployed_land_blocks ≡ some b
      → s'.undeployed_land_blocks ≡ insert id (record b { owner = to }) s.undeployed_land_blocks
      → s'.undeployed_land_blocks_owner
        ≡ insert (to, id) tt (remove (b.owner, id) s.undeployed_land_blocks_owner)
      → IsIndexed s
      → IsIndexed s'
  move-IsIndexed id b to s s' found p q h =
      let kept =
        Indexed-move owner_of id to b (record b { owner = to }) s.undeployed_land_blocks
          s.undeployed_land_blocks_owner found refl h in
      ground (arith, kept, p, q)

  issue_block-IsIndexed :
      (who : AccountId) (n : ℕ) (type : UndeployedLandBlockType) (id : UndeployedLandBlockId)
      (s s' : State c)
      → Blocks.issue_block c who n type s ≡ ok (id, s')
      → IsCounted s
      → IsIndexed s
      → IsIndexed s'
  unfolding Blocks.issue_block Blocks.get_new_undeployed_land_block_id
      Blocks.set_total_undeployed_land_unit
  issue_block-IsIndexed who n type id s s' e k h =
      let new = s.next_undeployed_land_block_id in
      let block : UndeployedLandBlock = record {
        id = new;
        number_land_units = n;
        undeployed_land_block_type = type;
        owner = who;
        approved = none;
        is_locked = false;
      } in
      add-IsIndexed new block s s'
        (ground (arith, Below-fresh new new s.undeployed_land_blocks, k.block_ids)) (ground arith)
        (ground arith) h

  issue_blocks-IsIndexed :
      (who : AccountId) (k n : ℕ) (type : UndeployedLandBlockType)
      (ids : List UndeployedLandBlockId) (s s' : State c)
      → Blocks.issue_blocks c who k n type s ≡ ok (ids, s')
      → IsCounted s
      → IsIndexed s
      → IsIndexed s'
  unfolding Blocks.issue_blocks
  issue_blocks-IsIndexed who zero n type ids s s' e i h =
      IsIndexed-writes s s' (ground arith) (ground arith) h
  issue_blocks-IsIndexed who (suc k) n type ids s s' e i h =
      let ((id, t), one, e1) = >>=-eq_ok (Blocks.issue_block c who n type s) _ e in
      let ((ids', u), rest, e2) = >>=-eq_ok (Blocks.issue_blocks c who k n type t) _ e1 in
      let ih =
        issue_blocks-IsIndexed who k n type ids' t u rest
          (issue_block-IsCounted c who n type id s t one i)
          (issue_block-IsIndexed who n type id s t one i h) in
      IsIndexed-writes u s' (ground (arith, e2)) (ground (arith, e2)) ih

  pub issue_undeployed_land_blocks-IsIndexed :
      (o : c.Origin) (who : AccountId) (k n : ℕ) (type : UndeployedLandBlockType) (s s' : State c)
      → Blocks.issue_undeployed_land_blocks c o who k n type s ≡ ok s'
      → IsCounted s
      → IsIndexed s
      → IsIndexed s'
  unfolding Blocks.issue_undeployed_land_blocks Blocks.do_issue_undeployed_land_blocks
  issue_undeployed_land_blocks-IsIndexed o who k n type s s' e i h =
      let (_, _, e0) = >>=-eq_ok (c.ensure_root o) _ e in
      let ((ids, u), done, e1) =
        >>=-eq_ok (Blocks.do_issue_undeployed_land_blocks c who k n type s) _ e0 in
      let (t, paid, e2) = >>=-eq_ok (Lands.collect_storage_fee c who _ s) _ done in
      let fee = collect_storage_fee-ledger c who _ s t paid in
      let issued =
        issue_blocks-IsIndexed who k n type ids t u e2 (ground (arith, fee))
          (IsIndexed-writes s t (ground (arith, fee)) (ground (arith, fee)) h) in
      IsIndexed-writes u s' (ground (arith, e1)) (ground (arith, e1)) issued

  pub do_burn-IsIndexed :
      (id : UndeployedLandBlockId) (s s' : State c)
      → Blocks.do_burn_undeployed_land_block c id s ≡ ok s'
      → IsIndexed s
      → IsIndexed s'
  unfolding Blocks.do_burn_undeployed_land_block Blocks.set_total_undeployed_land_unit
  do_burn-IsIndexed id s s' e h = elim (Option-cases (get? id s.undeployed_land_blocks)) [
    | inl missing ↦ absurd (ground (arith, missing))
    | inr (b, found) ↦
        drop-IsIndexed id b s s' found (ground (arith, found)) (ground (arith, found)) h
  ]

  pub transfer_undeployed_land_blocks-IsIndexed :
      (o : c.Origin) (to : AccountId) (id : UndeployedLandBlockId) (s s' : State c)
      → Blocks.transfer_undeployed_land_blocks c o to id s ≡ ok s'
      → IsIndexed s
      → IsIndexed s'
  unfolding Blocks.transfer_undeployed_land_blocks Blocks.do_transfer_undeployed_land_block
      Lands.collect_storage_fee
  transfer_undeployed_land_blocks-IsIndexed o to id s s' e h =
      elim (Option-cases (get? id s.undeployed_land_blocks)) [
        | inl missing ↦ absurd (ground (arith, missing))
        | inr (b, found) ↦
            move-IsIndexed id b to s s' found (ground (arith, found)) (ground (arith, found)) h
      ]
