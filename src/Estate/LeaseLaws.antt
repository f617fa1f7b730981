-- ===== src/Estate/LeaseLaws.antt =====
-- pallets/estate/src/lib.rs: every leased estate has one leasor.
use versus_project_metaverse.Prelude.{
  ℕ, ◌+◌, ◌-◌, ◌%◌, ◌^◌, ◌≡◌, true, none, ok, arith, nat_eq, pair_eq, ◌==◌, is_some, if◌then◌else◌,
  inl, inr, Option-cases,
}
use versus_project_metaverse.Prelude.Maps.{
  get?, get?-insert, get?-remove, insert, remove, Distinct, insert-Distinct, remove-Distinct,
}
use versus_project_metaverse.Prelude.Totals.{total, total-insert, total-remove, held-le-total}
use versus_project_metaverse.Primitives.{AccountId, EstateId, LeaseContract}
use versus_project_metaverse.Estate.Types.{Config, State}
use versus_project_metaverse.Estate.Lands
use versus_project_metaverse.Estate.Leases

-- Entries of the leasors for one estate.
abbrev pub leases_estate : EstateId → AccountId × EstateId → Unit {0} → ℕ
leases_estate id key _ = if key.1 == id then 1 else 0

-- The number of leasors of an estate is one while it is leased, and none while it is not.
pub record IsLeased {c : Config} (s : State c) : Type 0 where
  pub leasors :
      (id : EstateId)
      → total (leases_estate id) s.estate_leasors
        ≡ (if is_some (get? id s.estate_leases) then 1 else 0)
  pub distinct : Distinct s.estate_leases

module _ (c : Config) where
  -- A lease with its leasor is written.
  add-IsLeased :
      (id : EstateId) (who : AccountId) (lease : LeaseContract) (s : State c)
      → get? id s.estate_leases ≡ none
      → IsLeased s
      → (j : EstateId)
      → total (leases_estate j) (insert (who, id) tt s.estate_leasors)
        ≡ (if is_some (get? j (insert id lease s.estate_leases)) then 1 else 0)
  add-IsLeased id who lease s free h j = ground (
    arith,
    h.leasors j,
    get?-insert j id lease s.estate_leases,
    total-insert (leases_estate j) (who, id) tt s.estate_leasors,
    held-le-total (leases_estate j) (who, id) s.estate_leasors,
  )

  remove-IsLeased :
      (id : EstateId) (who : AccountId) (s : State c)
      → is_some (get? id s.estate_leases) ≡ true
      → is_some (get? (who, id) s.estate_leasors) ≡ true
      → IsLeased s
      → (j : EstateId)
      → total (leases_estate j) (remove (who, id) s.estate_leasors)
        ≡ (if is_some (get? j (remove id s.estate_leases)) then 1 else 0)
  remove-IsLeased id who s leased held h j = ground (
    arith,
    h.leasors j,
    h.distinct,
    get?-remove j id s.estate_leases,
    total-remove (leases_estate j) (who, id) s.estate_leasors,
  )

  pub IsLeased-writes :
      (s s' : State c)
      → s'.estate_leases ≡ s.estate_leases
      → s'.estate_leasors ≡ s.estate_leasors
      → IsLeased s
      → IsLeased s'
  IsLeased-writes s s' p q h = record {
    leasors = λ j. ground (arith, h.leasors j, p, q);
    distinct = ground (arith, h.distinct, p);
  }

  -- What accept_lease_offer writes: a lease, and its leasor, where there was no lease.
  pub accept_writes :
      (o : c.Origin) (id : EstateId) (who : AccountId) (s s' : State c)
      → Leases.accept_lease_offer c o id who s ≡ ok s'
      → (lease : LeaseContract) × (get? id s.estate_leases ≡ none)
        × (s'.estate_leases ≡ insert id lease s.estate_leases)
        × (s'.estate_leasors ≡ insert (who, id) tt s.estate_leasors)
  unfolding Leases.accept_lease_offer Lands.collect_storage_fee
  accept_writes o id who s s' e = elim (Option-cases (get? (id, who) s.estate_lease_offers)) [
    | inl missing ↦ absurd (ground (arith, missing))
    | inr (offer, found) ↦
        let last = (s.block_number + offer.duration) % 2 ^ 32 in
        let lease : LeaseContract = record offer {
          start_block = s.block_number;
          end_block = last;
        } in
        (lease, ground (arith, found), ground (arith, found), ground (arith, found))
  ]

  pub accept_lease_offer-IsLeased :
      (o : c.Origin) (id : EstateId) (who : AccountId) (s s' : State c)
      → Leases.accept_lease_offer c o id who s ≡ ok s'
      → IsLeased s
      → IsLeased s'
  accept_lease_offer-IsLeased o id who s s' e h =
      let (lease, free, leases, leasors) = accept_writes o id who s s' e in
      record {
        leasors = λ j. ground (arith, add-IsLeased id who lease s free h j, leases, leasors);
        distinct = ground (arith, leases, insert-Distinct id lease s.estate_leases h.distinct);
      }

  -- What the end of a lease writes, where the lease and the leasor are there.
  abbrev pub Ends : EstateId → AccountId → State c → State c → Type 0
  Ends id who s s' =
      (is_some (get? id s.estate_leases) ≡ true)
      × (is_some (get? (who, id) s.estate_leasors) ≡ true)
      × (s'.estate_leases ≡ remove id s.estate_leases)
      × (s'.estate_leasors ≡ remove (who, id) s.estate_leasors)

  pub cancel_lease-Ends :
      (o : c.Origin) (owner : AccountId) (id : EstateId) (who : AccountId) (s s' : State c)
      → Leases.cancel_lease c o owner id who s ≡ ok s'
      → Ends id who s s'
  unfolding Leases.cancel_lease Leases.end_lease
  cancel_lease-Ends o owner id who s s' e = ground arith

  pub remove_expired_lease-Ends :
      (o : c.Origin) (id : EstateId) (who : AccountId) (s s' : State c)
      → Leases.remove_expired_lease c o id who s ≡ ok s'
      → Ends id who s s'
  unfolding Leases.remove_expired_lease Leases.end_lease
  remove_expired_lease-Ends o id who s s' e = ground arith

  pub Ends-IsLeased :
      (id : EstateId) (who : AccountId) (s s' : State c)
      → Ends id who s s'
      → IsLeased s
      → IsLeased s'
  Ends-IsLeased id who s s' (leased, held, leases, leasors) h = record {
    leasors = λ j. ground (arith, remove-IsLeased id who s leased held h j, leases, leasors);
    distinct = ground (arith, leases, remove-Distinct id s.estate_leases h.distinct);
  }

  collect_rent_writes :
      (o : c.Origin) (id : EstateId) (who : AccountId) (s s' : State c)
      → Leases.collect_rent c o id who s ≡ ok s'
      → (lease : LeaseContract) × (is_some (get? id s.estate_leases) ≡ true)
        × (s'.estate_leases ≡ insert id lease s.estate_leases)
        × (s'.estate_leasors ≡ s.estate_leasors)
  unfolding Leases.collect_rent
  collect_rent_writes o id who s s' e = elim (Option-cases (get? id s.estate_leases)) [
    | inl missing ↦ absurd (ground (arith, missing))
    | inr (lease, found) ↦
        let amount = Leases.rent_claim_amount c lease s.block_number in
        let left : LeaseContract = record lease {
          unclaimed_rent = (lease.unclaimed_rent + 2 ^ 128 - amount) % 2 ^ 128;
        } in
        (left, ground (arith, found), ground (arith, found), ground (arith, found))
  ]

  pub collect_rent-IsLeased :
      (o : c.Origin) (id : EstateId) (who : AccountId) (s s' : State c)
      → Leases.collect_rent c o id who s ≡ ok s'
      → IsLeased s
      → IsLeased s'
  collect_rent-IsLeased o id who s s' e h =
      let (lease, leased, leases, leasors) = collect_rent_writes o id who s s' e in
      record {
        leasors = λ j.
            ground
              (arith, h.leasors j, leases, leasors, leased, get?-insert j id lease s.estate_leases);
        distinct = ground (arith, leases, insert-Distinct id lease s.estate_leases h.distinct);
      }
