-- ===== src/Estate/Rent.antt =====
-- pallets/estate/src/lib.rs: the rent of a lease, from its acceptance to its end.
use versus_project_metaverse.Prelude.{
  ℕ, ◌+◌, ◌-◌, ◌*◌, ◌%◌, ◌^◌, ◌≤◌, ◌<◌, ◌≡◌, refl, ap, some, Option-cases, inl, inr, ok, arith,
  nat_eq, pair_eq,
}
use versus_project_metaverse.Prelude.Maps.{get?, remove, get?-insert_self}
use versus_project_metaverse.Primitives.{AccountId, BlockNumber, EstateId, LeaseContract}
use versus_project_metaverse.Estate.Types.{Config, State}
use versus_project_metaverse.Estate.Lands
use versus_project_metaverse.Estate.Leases
use versus_project_metaverse.Estate.OwnerLaws.{Holds, checked-Holds}

-- An accepted lease whose rent is claimed up to block `k`: no number of it wraps, it ends `duration`
-- blocks after it starts, and the price of every block after `k` is unclaimed.
pub record IsRunning (lease : LeaseContract) (k : BlockNumber) : Type 0 where
  pub fits : lease.price_per_block * lease.duration < 2 ^ 128
  pub ends : lease.end_block ≡ lease.start_block + lease.duration
  pub in_time : lease.end_block < 2 ^ 32
  pub started : lease.start_block ≤ k
  pub until : k ≤ lease.end_block
  pub unclaimed : lease.unclaimed_rent ≡ lease.price_per_block * (lease.end_block - k)

split_rent :
    (p d s e k n : ℕ)
    → p * d < 2 ^ 128
    → e ≡ s + d
    → s ≤ k
    → k ≤ n
    → n ≤ e
    → (p * (n - s) ≡ p * (k - s) + p * (n - k))
      × (p * (e - k) ≡ p * (n - k) + p * (e - n))
      × (p * d ≡ p * (k - s) + p * (n - k) + p * (e - n))
split_rent p d s e k n f h a b g = (
  omega (arith, ap (λ (t : ℕ). p * t) (parts s k n a b)),
  omega (arith, ap (λ (t : ℕ). p * t) (parts k n e b g)),
  omega (arith, ap (λ (t : ℕ). p * t) (whole d s e k n h a b g)),
)
  where
    parts : (x y z : ℕ) → x ≤ y → y ≤ z → z - x ≡ (y - x) + (z - y)
    parts x y z u v = omega arith

    whole : (d s e k n : ℕ) → e ≡ s + d → s ≤ k → k ≤ n → n ≤ e → d ≡ (k - s) + (n - k) + (e - n)
    whole d s e k n h a b g = omega arith

module _ (c : Config) (same : (n : ℕ) → c.block_number_to_balance n ≡ n) where
  -- The amount that a lease owes at block `n`.
  pub rent_claim_amount_lem :
      (lease : LeaseContract) (k n : BlockNumber)
      → IsRunning lease k
      → k ≤ n
      → n ≤ lease.end_block
      → Leases.rent_claim_amount c lease n ≡ lease.price_per_block * (n - k)
  unfolding Leases.rent_claim_amount Leases.total_rent
  rent_claim_amount_lem lease k n r b g =
      let (x, y, z) =
        split_rent lease.price_per_block lease.duration lease.start_block lease.end_block k n r.fits
          r.ends r.started b g in
      let period : (n + 2 ^ 32 - lease.start_block) % 2 ^ 32 ≡ n - lease.start_block =
        omega (arith, r.in_time, r.started, r.ends) in
      rw (period, same (n - lease.start_block)) (omega (arith, x, y, z, r.unclaimed, r.fits))

  -- Where a block number is the same number as a balance: an offer of `duration` blocks at a price,
  -- whose unclaimed rent is its total rent, with a rent that fits a u128 and a last block that fits a
  -- u32, runs, when it is accepted, from the block in which that happens, with the rent of every block
  -- unclaimed. Nothing is asked of the end block of the offer, so an expired one is no exception.
  pub accept_lease_offer-IsRunning :
      (o : c.Origin) (id : EstateId) (recipient : AccountId) (offer : LeaseContract)
      (s s' : State c)
      → get? (id, recipient) s.estate_lease_offers ≡ some offer
      → offer.unclaimed_rent ≡ Leases.total_rent offer.price_per_block offer.duration
      → offer.price_per_block * offer.duration < 2 ^ 128
      → s.block_number + offer.duration < 2 ^ 32
      → Leases.accept_lease_offer c o id recipient s ≡ ok s'
      → (lease : LeaseContract) × (get? id s'.estate_leases ≡ some lease)
        × IsRunning lease s.block_number
        × (lease.price_per_block ≡ offer.price_per_block)
        × (lease.end_block ≡ s.block_number + offer.duration)
  unfolding Leases.accept_lease_offer Leases.total_rent Lands.collect_storage_fee
  accept_lease_offer-IsRunning o id recipient offer s s' found rent fits in_time e =
      let last = (s.block_number + offer.duration) % 2 ^ 32 in
      let lease : LeaseContract = record offer { start_block = s.block_number; end_block = last } in
      let span : last - s.block_number ≡ offer.duration = omega (arith, in_time) in
      let written = get?-insert_self id lease s.estate_leases in
      (
        lease,
        ground (arith, found, written),
        record {
          fits = fits;
          ends = omega (arith, in_time);
          in_time = omega (arith, in_time);
          started = omega arith;
          until = omega (arith, in_time);
          unclaimed = rw span (omega (arith, rent, fits));
        },
        refl,
        omega (arith, in_time),
      )

  -- Where a block number is the same number as a balance, and the rent of a lease is claimed up to a
  -- block `k` that is not after the current one, a call of `collect_rent` that succeeds pays the price
  -- of the blocks from `k` to now to the caller, out of the reserved balance of the leasor, and leaves
  -- the rent claimed up to now: however often it is called, no block is paid twice.
  pub collect_rent-IsRunning :
      (o : c.Origin) (who : AccountId) (id : EstateId) (leasor : AccountId) (lease : LeaseContract)
      (k : BlockNumber) (s s' : State c)
      → c.ensure_signed o ≡ ok who
      → get? id s.estate_leases ≡ some lease
      → IsRunning lease k
      → k ≤ s.block_number
      → Leases.collect_rent c o id leasor s ≡ ok s'
      → let amount = lease.price_per_block * (s.block_number - k) in
        (c.transfer leasor who amount (c.unreserve leasor amount s.ledger) ≡ ok s'.ledger)
        × ((left : LeaseContract) × (get? id s'.estate_leases ≡ some left)
            × IsRunning left s.block_number)
  unfolding Leases.collect_rent
  collect_rent-IsRunning o who id leasor lease k s s' signed found r b e =
      let now = s.block_number in
      let live : now < lease.end_block = ground (arith, found) in
      let owed = rent_claim_amount_lem lease k now r b (omega (arith, live)) in
      let amount = lease.price_per_block * (now - k) in
      let left : LeaseContract = record lease {
        unclaimed_rent = (lease.unclaimed_rent + 2 ^ 128 - amount) % 2 ^ 128;
      } in
      let written = get?-insert_self id left s.estate_leases in
      let (x, y, z) =
        split_rent lease.price_per_block lease.duration lease.start_block lease.end_block k now
          r.fits r.ends r.started b (omega (arith, live)) in
      (
        ground (arith, found, owed, signed),
        (
          left,
          ground (arith, found, owed, written),
          record {
            fits = r.fits;
            ends = r.ends;
            in_time = r.in_time;
            started = omega (arith, r.started, b);
            until = omega (arith, live);
            unclaimed = omega (arith, y, z, r.unclaimed, r.fits);
          },
        ),
      )

  remove_expired_lease-Holds :
      (o : c.Origin) (who : AccountId) (id : EstateId) (leasor : AccountId) (s s' : State c)
      → c.ensure_signed o ≡ ok who
      → Leases.remove_expired_lease c o id leasor s ≡ ok s'
      → Holds who id s
  unfolding Leases.remove_expired_lease Leases.end_lease
  remove_expired_lease-Holds o who id leasor s s' signed e =
      elim (Option-cases (get? id s.estate_owner)) [
        | inl missing ↦ absurd (ground (arith, missing))
        | inr (owner, found) ↦ checked-Holds c who id owner s found (ground (arith, found, signed))
      ]

  -- Where a block number is the same number as a balance, and the rent of a lease is claimed up to
  -- block `k`, a successful `remove_expired_lease` is signed by an account that holds the token of the
  -- estate, for a lease that has ended; it pays the price of the blocks from `k` to the end of the
  -- lease to the caller, out of the reserved balance of the leasor, and removes the entries of the
  -- lease and of its leasor.
  pub remove_expired_lease_lem :
      (o : c.Origin) (who : AccountId) (id : EstateId) (leasor : AccountId) (lease : LeaseContract)
      (k : BlockNumber) (s s' : State c)
      → c.ensure_signed o ≡ ok who
      → get? id s.estate_leases ≡ some lease
      → IsRunning lease k
      → Leases.remove_expired_lease c o id leasor s ≡ ok s'
      → let amount = lease.price_per_block * (lease.end_block - k) in
        Holds {c = c} who id s
        × (lease.end_block ≤ s.block_number)
        × (c.transfer leasor who amount (c.unreserve leasor amount s.ledger) ≡ ok s'.ledger)
        × (s'.estate_leases ≡ remove id s.estate_leases)
        × (s'.estate_leasors ≡ remove (leasor, id) s.estate_leasors)
  unfolding Leases.remove_expired_lease Leases.end_lease
  remove_expired_lease_lem o who id leasor lease k s s' signed found r e = (
    remove_expired_lease-Holds o who id leasor s s' signed e,
    ground (arith, found, signed),
    ground (arith, found, signed, r.unclaimed),
    ground (arith, found, signed),
    ground (arith, found, signed),
  )
