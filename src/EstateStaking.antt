-- ===== src/EstateStaking.antt =====
-- runtime/pioneer/src/lib.rs: the economy pallet with the estate pallet behind its `EstateHandler`.
use versus_project_metaverse.Prelude.{
  ◌*◌, ◌≤◌, ◌<◌, ◌≡◌, none, some, Outcome, ok, err, panic, DispatchError, module_error, overflow,
  underflow, bad_origin, other, external, arith, nat_eq, >>=-eq_ok, Outcome-cases, refl, ◌+◌, true,
  inl, inr, Option-cases,
}
use versus_project_metaverse.Prelude.Maps.{get?, get?-insert_self}
use versus_project_metaverse.Prelude.Lists.{length}
use versus_project_metaverse.Primitives.{
  AccountId, Balance, EstateId, EstateInfo, Bond, account, token,
}
use versus_project_metaverse.Economy
use versus_project_metaverse.Economy.Staking
use versus_project_metaverse.Estate.Handler
use versus_project_metaverse.Estate.Leases
use versus_project_metaverse.Estate
use versus_project_metaverse.Estate.OwnerLaws.{Holds}
mod Tests

-- An error of another pallet keeps its kind; which error of the pallet it is does not matter here.
abbrev pub passed_error : {E F : Type 0} → DispatchError E → DispatchError F
passed_error (module_error _) = external 0
passed_error overflow = overflow
passed_error underflow = underflow
passed_error bad_origin = bad_origin
passed_error other = other
passed_error (external code) = external code

abbrev pub passed_on : {E F A : Type 0} → Outcome E A → Outcome F A
passed_on (ok a) = ok a
passed_on (err e) = err (passed_error e)
passed_on panic = panic

-- `type EstateHandler = Estate`
abbrev pub with_estates : Economy.Types.Config → Estate.Types.Config → Economy.Types.Config
with_estates e c = record e {
  Estates = Estate.Types.State c;
  check_estate = λ id s. passed_on (Handler.check_estate c id s);
  check_estate_ownership = λ who id s. passed_on (Leases.check_estate_ownership c who id s);
  get_total_land_units = λ id s. Handler.get_total_land_units c id s;
}

-- What a stake on an estate is checked for, whatever the pallets behind the handlers are.
stake_estate-checks :
    (c : Economy.Types.Config) (who : AccountId) (amount : Balance) (id : EstateId)
    (s s' : Economy.Types.State c)
    → Staking.stake_estate c who amount id s ≡ ok s'
    → (bond : Bond) × (get? id s'.estate_staking_info ≡ some bond)
      × (bond.staker ≡ who)
      × (c.check_estate_ownership who id s.estates ≡ ok true)
      × (0 < c.get_total_land_units (some id) s.estates)
      × (bond.amount ≤ c.maximum_estate_stake * c.get_total_land_units (some id) s.estates)
unfolding Staking.stake_estate
stake_estate-checks c who amount id s s' h =
    elim (Outcome-cases (
      Staking.bonded who Economy.Types.previous_owner_still_stakes_at_estate
        (get? id s.estate_staking_info))) [
          | inl (staked, done) ↦
              let bond : Bond = record { staker = who; amount = staked + amount } in
              let written = get?-insert_self id bond s.estate_staking_info in
              (
                bond,
                ground (arith, done, written),
                refl,
                ground (arith, done),
                ground (arith, done),
                ground (arith, done),
              )
          | inr failed ↦ absurd (ground (arith, failed))
        ]

module _ (e : Economy.Types.Config) (c : Estate.Types.Config) where
  -- What the estate pallet knows of a stake of `who` on an estate: `who` holds the token of the
  -- estate, which has a unit at least, and the whole bond is within the maximum for its units.
  abbrev pub IsBacked : AccountId → EstateId → Bond → Estate.Types.State c → Type 0
  IsBacked who id bond s =
      Holds who id s
      × ((info : EstateInfo) × (get? id s.estates ≡ some info)
          × (0 < length info.land_units)
          × (bond.amount ≤ e.maximum_estate_stake * length info.land_units))

  stake_estate-IsBacked :
      (who : AccountId) (amount : Balance) (id : EstateId)
      (s s' : Economy.Types.State (with_estates e c))
      → Staking.stake_estate (with_estates e c) who amount id s ≡ ok s'
      → (bond : Bond) × (get? id s'.estate_staking_info ≡ some bond)
        × (bond.staker ≡ who)
        × IsBacked who id bond s.estates
  unfolding Handler.get_total_land_units Leases.check_estate_ownership
  stake_estate-IsBacked who amount id s s' h =
      let (bond, written, by, owned, units, within) =
        stake_estate-checks (with_estates e c) who amount id s s' h in
      elim (Option-cases (get? id s.estates.estates)) [
        | inl missing ↦ absurd (ground (arith, missing, units))
        | inr (info, found) ↦ elim (Option-cases (get? id s.estates.estate_owner)) [
          | inl missing ↦ absurd (ground (arith, missing, owned))
          | inr (account a, held) ↦ absurd (ground (arith, held, owned))
          | inr (token i j, held) ↦ (
            bond,
            written,
            by,
            (
              (i, (j, held, ground (arith, held, owned))),
              (info, found, ground (arith, found, units), ground (arith, found, within)),
            ),
          )
        ]
      ]

  -- With the estate pallet behind its handler, staking on an estate succeeds only for the holder of
  -- the token of the estate, on an estate that has a unit at least, and the whole bond of the staker
  -- then stays within the maximum for one unit times the units of the estate.
  pub stake-IsBacked :
      (o : e.Origin) (amount : Balance) (id : EstateId)
      (s s' : Economy.Types.State (with_estates e c))
      → Staking.stake (with_estates e c) o amount (some id) s ≡ ok s'
      → (who : AccountId) × (e.ensure_signed o ≡ ok who)
        × ((bond : Bond) × (get? id s'.estate_staking_info ≡ some bond)
            × (bond.staker ≡ who)
            × IsBacked who id bond s.estates)
  unfolding Staking.stake
  stake-IsBacked o amount id s s' h =
      let (who, signed, h0) = >>=-eq_ok (e.ensure_signed o) _ h in
      (who, signed, stake_estate-IsBacked who amount id s s' (ground (arith, h0)))
