-- ===== src/Metaverse/History.antt =====
-- pallets/metaverse/src/lib.rs: the registry across every call and every history, and whose calls on a
-- metaverse succeed.
use versus_project_metaverse.Prelude.{
  ◌≤◌, ◌≡◌, true, false, Option, none, some, ok, arith, nat_eq, pair_eq, >>=-eq_ok, refl, inl, inr,
  Option-cases, subst, ap, unwrap_or,
}
use versus_project_metaverse.Prelude.Maps.{get?, contains_key}
use versus_project_metaverse.Primitives.{AccountId, MetaverseId, MetaverseInfo}
use versus_project_metaverse.Metaverse.Types.{Config, State}
use versus_project_metaverse.Metaverse.Registry
use versus_project_metaverse.Metaverse.Calls.{Call, dispatch, Reach, here, called, elsewhere}
use versus_project_metaverse.Metaverse.Calls
use versus_project_metaverse.Metaverse.Laws.{IsRegistered, same-IsRegistered}
use versus_project_metaverse.Metaverse.CallLaws.{
  create_metaverse-IsRegistered, transfer_metaverse-IsRegistered, set_frozen-IsRegistered,
  destroy_metaverse-IsRegistered, update_fee-IsRegistered, update_token-IsRegistered,
}

-- The calls on a metaverse that its owner signs: the origin and the metaverse of each.
abbrev pub signed_call : {c : Config} → Call c → Option (c.Origin × MetaverseId)
signed_call (Calls.transfer_metaverse o _ id) = some (o, id)
signed_call (Calls.update_metaverse_listing_fee o id _) = some (o, id)
signed_call (Calls.withdraw_from_metaverse_fund o id) = some (o, id)
signed_call _ = none

module _ (c : Config) (small : c.from_percent 0 ≤ c.from_percent 25) where
  dispatch-IsRegistered :
      (call : Call c) (s s' : State c)
      → dispatch c call s ≡ ok s'
      → IsRegistered s
      → IsRegistered s'
  unfolding dispatch Registry.freeze_metaverse Registry.unfreeze_metaverse
      Registry.update_metaverse_listing_fee Registry.withdraw_from_metaverse_fund
      Registry.update_staking_reward
  dispatch-IsRegistered (Calls.create_metaverse o metadata) s s' e h =
      create_metaverse-IsRegistered c small o metadata s s' e h
  dispatch-IsRegistered (Calls.transfer_metaverse o to id) s s' e h =
      transfer_metaverse-IsRegistered c small o to id s s' e h
  dispatch-IsRegistered (Calls.freeze_metaverse o id) s s' e h =
      let (_, _, e0) = >>=-eq_ok (c.ensure_council o) _ e in
      let (t, done, e1) = >>=-eq_ok (Registry.set_frozen c true id s) _ e0 in
      same-IsRegistered c small t s' (ground (arith, e1)) (ground (arith, e1)) (ground (arith, e1))
        (ground (arith, e1)) (set_frozen-IsRegistered c small true id s t done h)
  dispatch-IsRegistered (Calls.unfreeze_metaverse o id) s s' e h =
      let (_, _, e0) = >>=-eq_ok (c.ensure_council o) _ e in
      let (t, done, e1) = >>=-eq_ok (Registry.set_frozen c false id s) _ e0 in
      same-IsRegistered c small t s' (ground (arith, e1)) (ground (arith, e1)) (ground (arith, e1))
        (ground (arith, e1)) (set_frozen-IsRegistered c small false id s t done h)
  dispatch-IsRegistered (Calls.destroy_metaverse o id) s s' e h =
      destroy_metaverse-IsRegistered c small o id s s' e h
  dispatch-IsRegistered (Calls.update_metaverse_listing_fee o id fee) s s' e h =
      let (who, _, e0) = >>=-eq_ok (c.ensure_signed o) _ e in
      let (t, done, e1) =
        >>=-eq_ok (Registry.do_update_metaverse_listing_fee c who id fee s) _ e0 in
      same-IsRegistered c small t s' (ground (arith, e1)) (ground (arith, e1)) (ground (arith, e1))
        (ground (arith, e1)) (update_fee-IsRegistered c small who id fee s t done h)
  dispatch-IsRegistered (Calls.withdraw_from_metaverse_fund o id) s s' e h =
      same-IsRegistered c small s s' (ground arith) (ground arith) (ground arith) (ground arith) h
  dispatch-IsRegistered (Calls.update_metaverse_token id currency) s s' e h =
      update_token-IsRegistered c small id currency s s' e h
  dispatch-IsRegistered (Calls.update_staking_reward round reward) s s' e h =
      same-IsRegistered c small s s' (ground arith) (ground arith) (ground arith) (ground arith) h

  -- Where 0 percent is no more than 25 percent, after every history of calls that succeed and of
  -- changes elsewhere, from a state where this holds: an account is listed for a metaverse exactly
  -- when the metaverse names it as its owner, the next id is above every id in use, no more
  -- metaverses stand than were counted, and no listing fee is above 25 percent.
  pub Reach-IsRegistered : (s s' : State c) → Reach c s s' → IsRegistered s → IsRegistered s'
  Reach-IsRegistered s _ here h = h
  Reach-IsRegistered s s' (called {t} r call e) h =
      dispatch-IsRegistered call t s' e (Reach-IsRegistered s t r h)
  Reach-IsRegistered s s' (elsewhere {t} r l n) h =
      same-IsRegistered c small t (record t { ledger = l; nfts = n }) refl refl refl refl
        (Reach-IsRegistered s t r h)

module _ (c : Config) where
  listed-owner :
      (who : AccountId) (id : MetaverseId) (s : State c)
      → contains_key (who, id) s.metaverse_owner ≡ true
      → IsRegistered s
      → (info : MetaverseInfo) × (get? id s.metaverses ≡ some info) × (info.owner ≡ who)
  listed-owner who id s listed h = elim (Option-cases (get? id s.metaverses)) [
    | inl missing ↦ absurd (ground (arith, listed, missing, h.indexed.owners who id))
    | inr (info, found) ↦ (info, found, ground (arith, listed, found, h.indexed.owners who id))
  ]

  named :
      {p o : c.Origin} {j id : MetaverseId} (s : State c)
      → ◌≡◌ {A = Option (c.Origin × MetaverseId)} (some (p, j)) (some (o, id))
      → (who : AccountId) → c.ensure_signed p ≡ ok who
      → (info : MetaverseInfo) × (get? j s.metaverses ≡ some info) × (info.owner ≡ who)
      → (who : AccountId) × (c.ensure_signed o ≡ ok who)
        × ((info : MetaverseInfo) × (get? id s.metaverses ≡ some info) × (info.owner ≡ who))
  named {p} {o} {j} {id} s by who signed owned =
      subst
        (λ x.
          (w : AccountId) × (c.ensure_signed x.0 ≡ ok w)
          × ((info : MetaverseInfo) × (get? x.1 s.metaverses ≡ some info) × (info.owner ≡ w)))
        (ap (unwrap_or (p, j)) by) (who, signed, owned)

  -- In a state where the owners are listed, transferring a metaverse, setting its listing fee and
  -- withdrawing from its fund succeed only for a signed origin that the metaverse names as its owner.
  pub signing_owner_lem :
      (call : Call c) (o : c.Origin) (id : MetaverseId) (s s' : State c)
      → IsRegistered s
      → signed_call call ≡ some (o, id)
      → dispatch c call s ≡ ok s'
      → (who : AccountId) × (c.ensure_signed o ≡ ok who)
        × ((info : MetaverseInfo) × (get? id s.metaverses ≡ some info) × (info.owner ≡ who))
  unfolding dispatch Registry.transfer_metaverse Registry.update_metaverse_listing_fee
      Registry.do_update_metaverse_listing_fee Registry.withdraw_from_metaverse_fund
      Registry.check_ownership
  signing_owner_lem (Calls.transfer_metaverse p to j) o id s s' h by e =
      let (who, signed, e0) = >>=-eq_ok (c.ensure_signed p) _ e in
      named s by who signed (listed-owner who j s (ground (arith, e0)) h)
  signing_owner_lem (Calls.update_metaverse_listing_fee p j fee) o id s s' h by e =
      let (who, signed, e0) = >>=-eq_ok (c.ensure_signed p) _ e in
      named s by who signed (listed-owner who j s (ground (arith, e0)) h)
  signing_owner_lem (Calls.withdraw_from_metaverse_fund p j) o id s s' h by e =
      let (who, signed, e0) = >>=-eq_ok (c.ensure_signed p) _ e in
      named s by who signed (listed-owner who j s (ground (arith, e0)) h)
  signing_owner_lem _ o id s s' h by e = absurd (cc)
