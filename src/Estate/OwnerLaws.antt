-- ===== src/Estate/OwnerLaws.antt =====
-- pallets/estate/src/lib.rs: what the owner of an estate alone may do.
use versus_project_metaverse.Prelude.{
  ◌≡◌, true, false, Option, none, some, ok, is_ok, arith, nat_eq, pair_eq, >>=-eq_ok, inl, inr,
  Option-cases, subst, ap, unwrap_or,
}
use versus_project_metaverse.Prelude.Maps.{get?}
use versus_project_metaverse.Primitives.{
  AccountId, EstateId, ClassId, TokenId, OwnerId, account, token,
}
use versus_project_metaverse.Estate.Types.{Config, State}
use versus_project_metaverse.Estate.Lands
use versus_project_metaverse.Estate.Lands.{mint_land_units}
use versus_project_metaverse.Estate.Estates
use versus_project_metaverse.Estate.Estates.{percent_of}
use versus_project_metaverse.Estate.Leases
use versus_project_metaverse.Estate.Calls.{Call, dispatch}
use versus_project_metaverse.Estate.Calls

-- The calls on an estate that its owner signs: the origin and the estate of each.
abbrev pub by_owner : {c : Config} → Call c → Option (c.Origin × EstateId)
by_owner (Calls.transfer_estate o _ id) = some (o, id)
by_owner (Calls.dissolve_estate o id) = some (o, id)
by_owner (Calls.add_land_unit_to_estate o id _) = some (o, id)
by_owner (Calls.remove_land_unit_from_estate o id _) = some (o, id)
by_owner (Calls.accept_lease_offer o id _) = some (o, id)
by_owner (Calls.remove_expired_lease o id _) = some (o, id)
by_owner (Calls.collect_rent o id _) = some (o, id)
by_owner _ = none

-- The owner of the estate is a token that the account holds.
abbrev pub Holds : {c : Config} → AccountId → EstateId → State c → Type 0
Holds {c} who id s =
    (class_id : ClassId) × ((token_id : TokenId) × (get? id s.estate_owner
        ≡ some (token class_id token_id))
      × (c.nft_ownership who (class_id, token_id) s.nfts ≡ ok true))

module _ (c : Config) where
  pub checked-Holds :
      (who : AccountId) (id : EstateId) (owner : OwnerId) (s : State c)
      → get? id s.estate_owner ≡ some owner
      → Lands.check_if_land_or_estate_owner c who owner s ≡ true
      → Holds who id s
  unfolding Lands.check_if_land_or_estate_owner
  checked-Holds who id (account a) s found held = absurd (ground arith)
  checked-Holds who id (token i j) s found held = (i, (j, found, ground arith))

  named :
      {p o : c.Origin} {j id : EstateId} (s : State c)
      → ◌≡◌ {A = Option (c.Origin × EstateId)} (some (p, j)) (some (o, id))
      → (who : AccountId) → c.ensure_signed p ≡ ok who
      → Holds who j s
      → (who : AccountId) × (c.ensure_signed o ≡ ok who) × Holds who id s
  named {p} {o} {j} {id} s by who signed held =
      subst (λ x. (w : AccountId) × (c.ensure_signed x.0 ≡ ok w) × Holds w x.1 s)
        (ap (unwrap_or (p, j)) by) (who, signed, held)

  -- Transferring or dissolving an estate, adding units to it and removing them, accepting an offer to
  -- lease it, removing its expired lease and collecting its rent succeed only for a signed origin that
  -- holds the token of the estate.
  pub by_owner_lem :
      (call : Call c) (o : c.Origin) (id : EstateId) (s s' : State c)
      → by_owner call ≡ some (o, id)
      → dispatch c call s ≡ ok s'
      → (who : AccountId) × (c.ensure_signed o ≡ ok who) × Holds who id s
  unfolding dispatch Estates.transfer_estate Estates.do_transfer_estate Estates.dissolve_estate
      Estates.add_land_unit_to_estate Estates.remove_land_unit_from_estate Estates.owned_estate
      Leases.accept_lease_offer Leases.remove_expired_lease Leases.end_lease Leases.collect_rent
      Leases.check_estate_ownership
  by_owner_lem (Calls.transfer_estate p to j) o id s s' by e =
      let (who, signed, e0) = >>=-eq_ok (c.ensure_signed p) _ e in
      elim (Option-cases (get? j s.estate_owner)) [
        | inl missing ↦ absurd (ground (arith, missing))
        | inr (owner, found) ↦
            named s by who signed (checked-Holds who j owner s found (ground (arith, found)))
      ]
  by_owner_lem (Calls.dissolve_estate p j) o id s s' by e =
      let (who, signed, e0) = >>=-eq_ok (c.ensure_signed p) _ e in
      elim (Option-cases (get? j s.estate_owner)) [
        | inl missing ↦ absurd (ground (arith, missing))
        | inr (owner, found) ↦
            named s by who signed (checked-Holds who j owner s found (ground (arith, found)))
      ]
  by_owner_lem (Calls.add_land_unit_to_estate p j units) o id s s' by e =
      let (who, signed, e0) = >>=-eq_ok (c.ensure_signed p) _ e in
      elim (Option-cases (get? j s.estate_owner)) [
        | inl missing ↦ absurd (ground (arith, missing))
        | inr (owner, found) ↦
            named s by who signed (checked-Holds who j owner s found (ground (arith, found)))
      ]
  by_owner_lem (Calls.remove_land_unit_from_estate p j units) o id s s' by e =
      let (who, signed, e0) = >>=-eq_ok (c.ensure_signed p) _ e in
      elim (Option-cases (get? j s.estate_owner)) [
        | inl missing ↦ absurd (ground (arith, missing))
        | inr (owner, found) ↦
            named s by who signed (checked-Holds who j owner s found (ground (arith, found)))
      ]
  by_owner_lem (Calls.accept_lease_offer p j recipient) o id s s' by e =
      let (who, signed, e0) = >>=-eq_ok (c.ensure_signed p) _ e in
      elim (Option-cases (get? j s.estate_owner)) [
        | inl missing ↦ absurd (ground (arith, missing))
        | inr (owner, found) ↦
            named s by who signed (checked-Holds who j owner s found (ground (arith, found)))
      ]
  by_owner_lem (Calls.remove_expired_lease p j leasor) o id s s' by e =
      let (who, signed, e0) = >>=-eq_ok (c.ensure_signed p) _ e in
      elim (Option-cases (get? j s.estate_owner)) [
        | inl missing ↦ absurd (ground (arith, missing))
        | inr (owner, found) ↦
            named s by who signed (checked-Holds who j owner s found (ground (arith, found)))
      ]
  by_owner_lem (Calls.collect_rent p j leasor) o id s s' by e =
      let (who, signed, e0) = >>=-eq_ok (c.ensure_signed p) _ e in
      elim (Option-cases (get? j s.estate_owner)) [
        | inl missing ↦ absurd (ground (arith, missing))
        | inr (account a, found) ↦ absurd (ground (arith, found))
        | inr (token a b, found) ↦ named s by who signed (a, (b, found, ground (arith, found)))
      ]
  by_owner_lem _ o id s s' by e = absurd (cc)

  pub no_lease_calls :
      (p : c.Origin) (owner leasor : AccountId) (id : EstateId) (s : State c)
      → get? id s.estate_owner ≡ none
      → (is_ok (Leases.cancel_lease c p owner id leasor s) ≡ false)
        × (is_ok (Leases.remove_expired_lease c p id leasor s) ≡ false)
        × (is_ok (Leases.collect_rent c p id leasor s) ≡ false)
  unfolding Leases.cancel_lease Leases.remove_expired_lease Leases.collect_rent Leases.end_lease
      Leases.check_estate_ownership
  no_lease_calls p owner leasor id s none_left =
      (ground (arith, none_left), ground (arith, none_left), ground (arith, none_left))
