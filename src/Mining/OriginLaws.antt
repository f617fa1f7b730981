-- ===== src/Mining/OriginLaws.antt =====
-- pallets/mining/src/lib.rs: who may mint, burn and withdraw.
use versus_project_metaverse.Prelude.{
  none, sym, ap, subst, is_some, ◌≡◌, ◌≢◌, Bool, not, ◌&&◌, ◌||◌, ok, err, module_error, arith,
  nat_eq, ◌==◌,
}
use versus_project_metaverse.Prelude.Maps.{
  Map, get?, get?-insert, get?-remove, Distinct, insert-Distinct, remove-Distinct,
}
use versus_project_metaverse.Primitives.{AccountId, Balance}
use versus_project_metaverse.Mining.Types.{Config, State}
use versus_project_metaverse.Mining.Types
use versus_project_metaverse.Mining.Resource
use versus_project_metaverse.Mining.Rounds
use versus_project_metaverse.Mining.Calls.{Call, dispatch}
use versus_project_metaverse.Mining.Calls

-- Whether an account is an origin after a call, from whether it was one before.
abbrev pub is_origin_after : {c : Config} → Call c → AccountId → Bool → Bool
is_origin_after (Calls.add_minting_origin _ who) x before = before || who == x
is_origin_after (Calls.remove_minting_origin _ who) x before = before && not (who == x)
is_origin_after _ _ before = before

module _ (c : Config) where
  -- A call for a positive amount that an account signs without being a minting origin fails with
  -- `NoPermission`: to mint for any account, to burn from any account, and to withdraw to another
  -- account. A withdrawal to oneself returns before this test, and changes nothing.
  pub no_permission_lem :
      (o : c.Origin) (who to from dest : AccountId) (amount : Balance) (s : State c)
      → c.ensure_signed o ≡ ok who
      → get? who s.minting_origins ≡ none
      → amount ≢ 0
      → who ≢ dest
      → (Resource.mint c o to amount s ≡ err (module_error Types.no_permission))
        × (Resource.burn c o from amount s ≡ err (module_error Types.no_permission))
        × (Resource.withdraw c o dest amount s ≡ err (module_error Types.no_permission))
        × (Resource.withdraw c o who amount s ≡ ok s)
  unfolding Resource.mint Resource.do_mint Resource.burn Resource.do_burn Resource.withdraw
      Resource.do_withdraw Resource.is_mining_origin
  no_permission_lem o who to from dest amount s signed out pos other = ground arith

  add-records :
      (o : c.Origin) (who x : AccountId) (s s' : State c)
      → Distinct s.minting_origins
      → Resource.add_minting_origin c o who s ≡ ok s'
      → (Resource.is_mining_origin c x s'
          ≡ is_origin_after {c = c}
              (Calls.add_minting_origin o who)
              x
              (Resource.is_mining_origin c x s))
        × Distinct s'.minting_origins
  unfolding Resource.add_minting_origin Resource.do_add_minting_origin Resource.is_mining_origin
  add-records o who x s s' d e =
      ground
        (arith, get?-insert x who tt s.minting_origins, insert-Distinct who tt s.minting_origins d)

  remove-records :
      (o : c.Origin) (who x : AccountId) (s s' : State c)
      → Distinct s.minting_origins
      → Resource.remove_minting_origin c o who s ≡ ok s'
      → (Resource.is_mining_origin c x s'
          ≡ is_origin_after {c = c}
              (Calls.remove_minting_origin o who)
              x
              (Resource.is_mining_origin c x s))
        × Distinct s'.minting_origins
  unfolding Resource.remove_minting_origin Resource.do_remove_minting_origin
      Resource.is_mining_origin
  remove-records o who x s s' d e =
      ground (arith, get?-remove x who s.minting_origins d, remove-Distinct who s.minting_origins d)

  same_origins :
      (x : AccountId) (s s' : State c)
      → Distinct s.minting_origins
      → s'.minting_origins ≡ s.minting_origins
      → (Resource.is_mining_origin c x s' ≡ Resource.is_mining_origin c x s)
        × Distinct s'.minting_origins
  unfolding Resource.is_mining_origin
  same_origins x s s' d e =
      (ap (λ (m : Map AccountId (Unit {0})). is_some (get? x m)) e, subst Distinct (sym e) d)

  -- A successful call makes an account a minting origin, or stops it from being one, exactly if it
  -- is the call that adds or removes that account; the origins stay without duplicates.
  pub dispatch-is_mining_origin :
      (call : Call c) (x : AccountId) (s s' : State c)
      → Distinct s.minting_origins
      → dispatch c call s ≡ ok s'
      → (Resource.is_mining_origin c x s'
          ≡ is_origin_after call x (Resource.is_mining_origin c x s))
        × Distinct s'.minting_origins
  unfolding dispatch Resource.mint Resource.do_mint Resource.burn Resource.do_burn Resource.deposit
      Resource.do_deposit Resource.withdraw Resource.do_withdraw Rounds.update_round_length
      Rounds.update_mining_issuance_config Rounds.pause_mining_round Rounds.unpause_mining_round
  dispatch-is_mining_origin (Calls.mint o who amount) x s s' d e =
      same_origins x s s' d (ground arith)
  dispatch-is_mining_origin (Calls.burn o who amount) x s s' d e =
      same_origins x s s' d (ground arith)
  dispatch-is_mining_origin (Calls.deposit o amount) x s s' d e =
      same_origins x s s' d (ground arith)
  dispatch-is_mining_origin (Calls.withdraw o dest amount) x s s' d e =
      same_origins x s s' d (ground arith)
  dispatch-is_mining_origin (Calls.add_minting_origin o who) x s s' d e =
      add-records o who x s s' d e
  dispatch-is_mining_origin (Calls.remove_minting_origin o who) x s s' d e =
      remove-records o who x s s' d e
  dispatch-is_mining_origin (Calls.update_round_length o length) x s s' d e =
      same_origins x s s' d (ground arith)
  dispatch-is_mining_origin (Calls.update_mining_issuance_config o config) x s s' d e =
      same_origins x s s' d (ground arith)
  dispatch-is_mining_origin (Calls.pause_mining_round o) x s s' d e =
      same_origins x s s' d (ground arith)
  dispatch-is_mining_origin (Calls.unpause_mining_round o) x s s' d e =
      same_origins x s s' d (ground arith)
