-- ===== src/Estate/Deploy.antt =====
-- pallets/estate/src/lib.rs: the counts across the deployment of a land block.
use versus_project_metaverse.Prelude.{
  ◌*◌, ◌≡◌, false, List, ok, arith, >>=-eq_ok, inl, inr, Outcome-cases, ◌>>=◌, nat_eq, pair_eq,
}
use versus_project_metaverse.Prelude.Lists.{length}
use versus_project_metaverse.Primitives.{
  AccountId, MetaverseId, Coordinate, UndeployedLandBlockId, account, non_existing,
}
use versus_project_metaverse.Estate.Types.{Config, State}
use versus_project_metaverse.Estate.Types
use versus_project_metaverse.Estate.Lands
use versus_project_metaverse.Estate.Lands.{mint_land_units}
use versus_project_metaverse.Estate.Blocks
use versus_project_metaverse.Estate.Frames.{mint_land_units-Adds}
use versus_project_metaverse.Estate.Counts.{
  IsCounted, Counts, add_count-IsCounted, collect_network_fee-ledger,
}
use versus_project_metaverse.Estate.BlockCounts.{do_burn-IsCounted}

module _ (c : Config) where
  -- What a deployment does once its guards are passed and its fee is paid.
  pub deploy_tail :
      (id : UndeployedLandBlockId) (m : MetaverseId) (block : Coordinate) (ps : List Coordinate)
      (who : AccountId) (o : c.Origin) (s s' t : State c)
      → c.ensure_signed o ≡ ok who
      → Lands.collect_network_fee c who s ≡ ok t
      → Blocks.deploy_land_block c o id m block ps s ≡ ok s'
      → (mint_land_units c m (account who) who non_existing ps t >>= λ u.
          Lands.set_total_land_unit c (length ps) false u >>= λ v.
          Blocks.do_burn_undeployed_land_block c id v >>= λ w.
          ok (Types.deposit_event (Types.land_block_deployed who m id ps) w))
        ≡ ok s'
  unfolding Blocks.deploy_land_block
  deploy_tail id m block ps who o s s' t signed paid e = ground arith

  -- A deployment burns the block in a state that keeps the blocks and the leases.
  pub deploy_burns :
      (o : c.Origin) (id : UndeployedLandBlockId) (m : MetaverseId) (block : Coordinate)
      (ps : List Coordinate) (s s' : State c)
      → Blocks.deploy_land_block c o id m block ps s ≡ ok s'
      → IsCounted s
      → (v w : State c) × Counts s v
        × (Blocks.do_burn_undeployed_land_block c id v ≡ ok w)
        × (s' ≡ record w { events = s'.events })
  unfolding Blocks.deploy_land_block
  deploy_burns o id m block ps s s' e h =
      let (who, signed, e0) = >>=-eq_ok (c.ensure_signed o) _ e in
      elim (Outcome-cases (Lands.collect_network_fee c who s)) [
        | inl (t, paid) ↦
            let fee = collect_network_fee-ledger c who s t paid in
            let (u, minted, e1) =
              >>=-eq_ok (mint_land_units c m (account who) who non_existing ps t) _
                (deploy_tail id m block ps who o s s' t signed paid e) in
            let (v, counted, e2) =
              >>=-eq_ok (Lands.set_total_land_unit c (length ps) false u) _ e1 in
            let (w, burnt, e3) = >>=-eq_ok (Blocks.do_burn_undeployed_land_block c id v) _ e2 in
            let start : IsCounted t = ground (arith, fee) in
            let adds =
              mint_land_units-Adds c m (account who) who non_existing ps t u start.distinct
                minted in
            let counts =
              add_count-IsCounted c (1 * length ps) (length ps) t u v (omega arith) start adds
                counted in
            (v, w, (counts.0, ground (arith, counts.1, adds.0, fee)), burnt, ground (arith, e3))
        | inr failed ↦ absurd (ground (arith, failed))
      ]

  pub deploy_land_block-IsCounted :
      (o : c.Origin) (id : UndeployedLandBlockId) (m : MetaverseId) (block : Coordinate)
      (ps : List Coordinate) (s s' : State c)
      → Blocks.deploy_land_block c o id m block ps s ≡ ok s'
      → IsCounted s
      → IsCounted s'
  deploy_land_block-IsCounted o id m block ps s s' e h =
      let (v, w, counts, burnt, same) = deploy_burns o id m block ps s s' e h in
      let kept = do_burn-IsCounted c id v w burnt counts.0 in ground (arith, kept, same)
