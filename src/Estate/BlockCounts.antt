-- ===== src/Estate/BlockCounts.antt =====
-- pallets/estate/src/lib.rs: the counts across the calls on undeployed land blocks.
use versus_project_metaverse.Prelude.{
  ℕ, zero, suc, ◌+◌, ◌≡◌, true, false, Option, none, some, List, ok, arith, >>=-eq_ok, inl, inr,
  Option-cases, nat_eq, pair_eq,
}
use versus_project_metaverse.Prelude.Maps.{get?, insert}
use versus_project_metaverse.Prelude.Totals.{total-insert, total-remove}
use versus_project_metaverse.Prelude.Keys.{
  Below-weaken, Below-fresh, insert-Below, remove-Below, get?-Below,
}
use versus_project_metaverse.Primitives.{
  AccountId, UndeployedLandBlockId, UndeployedLandBlock, UndeployedLandBlockType,
}
use versus_project_metaverse.Estate.Types.{Config, State}
use versus_project_metaverse.Estate.Lands
use versus_project_metaverse.Estate.Lands.{mint_land_units}
use versus_project_metaverse.Estate.Blocks
use versus_project_metaverse.Estate.Counts.{IsCounted, units_in, collect_storage_fee-ledger}

module _ (c : Config) where
  pub issue_block-IsCounted :
      (who : AccountId) (n : ℕ) (type : UndeployedLandBlockType) (id : UndeployedLandBlockId)
      (s s' : State c)
      → Blocks.issue_block c who n type s ≡ ok (id, s')
      → IsCounted s
      → IsCounted s'
  unfolding Blocks.issue_block Blocks.get_new_undeployed_land_block_id
      Blocks.set_total_undeployed_land_unit
  issue_block-IsCounted who n type id s s' e h =
      let new = s.next_undeployed_land_block_id in
      let block : UndeployedLandBlock = record {
        id = new;
        number_land_units = n;
        undeployed_land_block_type = type;
        owner = who;
        approved = none;
        is_locked = false;
      } in
      ground (
        arith,
        total-insert units_in new block s.undeployed_land_blocks,
        Below-fresh new new s.undeployed_land_blocks,
        insert-Below (new + 1) new block s.undeployed_land_blocks,
        Below-weaken new (new + 1) s.undeployed_land_blocks,
        h.block_ids,
      )

  issue_blocks-IsCounted :
      (who : AccountId) (k n : ℕ) (type : UndeployedLandBlockType)
      (ids : List UndeployedLandBlockId) (s s' : State c)
      → Blocks.issue_blocks c who k n type s ≡ ok (ids, s')
      → IsCounted s
      → IsCounted s'
  unfolding Blocks.issue_blocks
  issue_blocks-IsCounted who zero n type ids s s' e h = ground arith
  issue_blocks-IsCounted who (suc k) n type ids s s' e h =
      let ((id, t), one, e1) = >>=-eq_ok (Blocks.issue_block c who n type s) _ e in
      let ((ids', u), rest, e2) = >>=-eq_ok (Blocks.issue_blocks c who k n type t) _ e1 in
      let ih =
        issue_blocks-IsCounted who k n type ids' t u rest
          (issue_block-IsCounted who n type id s t one h) in
      ground (arith, ih)

  pub issue_undeployed_land_blocks-IsCounted :
      (o : c.Origin) (who : AccountId) (k n : ℕ) (type : UndeployedLandBlockType) (s s' : State c)
      → Blocks.issue_undeployed_land_blocks c o who k n type s ≡ ok s'
      → IsCounted s
      → IsCounted s'
  unfolding Blocks.issue_undeployed_land_blocks Blocks.do_issue_undeployed_land_blocks
  issue_undeployed_land_blocks-IsCounted o who k n type s s' e h =
      let (_, _, e0) = >>=-eq_ok (c.ensure_root o) _ e in
      let ((ids, u), done, e1) =
        >>=-eq_ok (Blocks.do_issue_undeployed_land_blocks c who k n type s) _ e0 in
      let (t, paid, e2) = >>=-eq_ok (Lands.collect_storage_fee c who _ s) _ done in
      let fee = collect_storage_fee-ledger c who _ s t paid in
      let issued = issue_blocks-IsCounted who k n type ids t u e2 (ground (arith, fee)) in
      ground (arith, issued)

  pub do_burn-IsCounted :
      (id : UndeployedLandBlockId) (s s' : State c)
      → Blocks.do_burn_undeployed_land_block c id s ≡ ok s'
      → IsCounted s
      → IsCounted s'
  unfolding Blocks.do_burn_undeployed_land_block Blocks.set_total_undeployed_land_unit
  do_burn-IsCounted id s s' e h = ground (
    arith,
    total-remove units_in id s.undeployed_land_blocks,
    remove-Below s.next_undeployed_land_block_id id s.undeployed_land_blocks,
    h.block_ids,
  )

  pub burn_undeployed_land_blocks-IsCounted :
      (o : c.Origin) (id : UndeployedLandBlockId) (s s' : State c)
      → Blocks.burn_undeployed_land_blocks c o id s ≡ ok s'
      → IsCounted s
      → IsCounted s'
  unfolding Blocks.burn_undeployed_land_blocks
  burn_undeployed_land_blocks-IsCounted o id s s' e h = ground (arith, do_burn-IsCounted id s s')

  -- A block that is written again with its number of units.
  rewrite-IsCounted :
      (id : UndeployedLandBlockId) (b b' : UndeployedLandBlock) (s : State c)
      → get? id s.undeployed_land_blocks ≡ some b
      → b'.number_land_units ≡ b.number_land_units
      → IsCounted s
      → IsCounted (record s { undeployed_land_blocks = insert id b' s.undeployed_land_blocks })
  rewrite-IsCounted id b b' s found same h = ground (
    arith,
    total-insert units_in id b' s.undeployed_land_blocks,
    insert-Below s.next_undeployed_land_block_id id b' s.undeployed_land_blocks,
    get?-Below s.next_undeployed_land_block_id id b s.undeployed_land_blocks,
    h.block_ids,
  )

  pub freeze_undeployed_land_blocks-IsCounted :
      (o : c.Origin) (id : UndeployedLandBlockId) (s s' : State c)
      → Blocks.freeze_undeployed_land_blocks c o id s ≡ ok s'
      → IsCounted s
      → IsCounted s'
  unfolding Blocks.freeze_undeployed_land_blocks Blocks.do_freeze_undeployed_land_block
  freeze_undeployed_land_blocks-IsCounted o id s s' e h =
      elim (Option-cases (get? id s.undeployed_land_blocks)) [
        | inl missing ↦ ground (arith, missing)
        | inr (b, found) ↦
            ground (arith, found, rewrite-IsCounted id b (record b { is_locked = true }) s found)
      ]

  pub unfreeze_undeployed_land_blocks-IsCounted :
      (o : c.Origin) (id : UndeployedLandBlockId) (s s' : State c)
      → Blocks.unfreeze_undeployed_land_blocks c o id s ≡ ok s'
      → IsCounted s
      → IsCounted s'
  unfolding Blocks.unfreeze_undeployed_land_blocks
  unfreeze_undeployed_land_blocks-IsCounted o id s s' e h =
      elim (Option-cases (get? id s.undeployed_land_blocks)) [
        | inl missing ↦ ground (arith, missing)
        | inr (b, found) ↦
            ground (arith, found, rewrite-IsCounted id b (record b { is_locked = false }) s found)
      ]

  pub transfer_undeployed_land_blocks-IsCounted :
      (o : c.Origin) (to : AccountId) (id : UndeployedLandBlockId) (s s' : State c)
      → Blocks.transfer_undeployed_land_blocks c o to id s ≡ ok s'
      → IsCounted s
      → IsCounted s'
  unfolding Blocks.transfer_undeployed_land_blocks Blocks.do_transfer_undeployed_land_block
      Lands.collect_storage_fee
  transfer_undeployed_land_blocks-IsCounted o to id s s' e h =
      elim (Option-cases (get? id s.undeployed_land_blocks)) [
        | inl missing ↦ ground (arith, missing)
        | inr (b, found) ↦
            ground (arith, found, rewrite-IsCounted id b (record b { owner = to }) s found)
      ]

  set_approved-IsCounted :
      (who : AccountId) (a : Option AccountId) (id : UndeployedLandBlockId) (s s' : State c)
      → Blocks.set_approved c who a id s ≡ ok s'
      → IsCounted s
      → IsCounted s'
  unfolding Blocks.set_approved
  set_approved-IsCounted who a id s s' e h =
      elim (Option-cases (get? id s.undeployed_land_blocks)) [
        | inl missing ↦ ground (arith, missing)
        | inr (b, found) ↦
            ground (arith, found, rewrite-IsCounted id b (record b { approved = a }) s found)
      ]

  pub approve_undeployed_land_blocks-IsCounted :
      (o : c.Origin) (to : AccountId) (id : UndeployedLandBlockId) (s s' : State c)
      → Blocks.approve_undeployed_land_blocks c o to id s ≡ ok s'
      → IsCounted s
      → IsCounted s'
  unfolding Blocks.approve_undeployed_land_blocks
  approve_undeployed_land_blocks-IsCounted o to id s s' e h =
      let (who, _, e0) = >>=-eq_ok (c.ensure_signed o) _ e in
      let (t, set, e1) = >>=-eq_ok (Blocks.set_approved c who (some to) id s) _ e0 in
      let kept = set_approved-IsCounted who (some to) id s t set h in ground (arith, kept)

  pub unapprove_undeployed_land_blocks-IsCounted :
      (o : c.Origin) (id : UndeployedLandBlockId) (s s' : State c)
      → Blocks.unapprove_undeployed_land_blocks c o id s ≡ ok s'
      → IsCounted s
      → IsCounted s'
  unfolding Blocks.unapprove_undeployed_land_blocks
  unapprove_undeployed_land_blocks-IsCounted o id s s' e h =
      let (who, _, e0) = >>=-eq_ok (c.ensure_signed o) _ e in
      let (t, set, e1) = >>=-eq_ok (Blocks.set_approved c who none id s) _ e0 in
      let kept = set_approved-IsCounted who none id s t set h in ground (arith, kept)
