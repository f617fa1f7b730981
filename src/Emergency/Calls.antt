-- ===== src/Emergency/Calls.antt =====
-- pallets/emergency/src/lib.rs: the calls and the two filters.
use versus_project_metaverse.Prelude.{
  Bool, true, false, not, Option, none, some, ok, ◌>>◌, ensure, if◌then◌else◌, pair_eq, List, [],
  ◌∷◌, after,
}
use versus_project_metaverse.Prelude.Maps.{get?, contains_key, insert, remove}
use versus_project_metaverse.Emergency.Types
use versus_project_metaverse.Emergency.Types.{Config, State, Result, Bytes, bytes_beq, bytes_eq}

-- `mutate_exists`: an entry that is there stays, and no event is deposited.
unfoldable pub stop_entry : Bytes → Bytes → Option (Unit {0}) → State → State
stop_entry pallet function (some _) s = s
stop_entry pallet function none s =
    Types.deposit_event (Types.emergency_stopped pallet function) (record s {
      emergency_stopped_pallets = insert (pallet, function) tt s.emergency_stopped_pallets;
    })

-- `take`
unfoldable pub unstop_entry : Bytes → Bytes → Option (Unit {0}) → State → State
unstop_entry pallet function none s = s
unstop_entry pallet function (some _) s =
    Types.deposit_event (Types.emergency_unstopped pallet function) (record s {
      emergency_stopped_pallets = remove (pallet, function) s.emergency_stopped_pallets;
    })

module _ (c : Config) where
  unfoldable pub emergency_stop : c.Origin → Bytes → Bytes → State → Result State
  unfolding stop_entry
  emergency_stop origin pallet function s = do
    c.ensure_emergency origin
    ensure (c.is_utf8 pallet) Types.invalid_pallet_and_function
    ensure (not (bytes_beq pallet c.pallet_name)) Types.cannot_stop_emergency_call
    ok (stop_entry pallet function (get? (pallet, function) s.emergency_stopped_pallets) s)

  unfoldable pub emergency_unstop : c.Origin → Bytes → Bytes → State → Result State
  unfolding unstop_entry
  emergency_unstop origin pallet function s = do
    c.ensure_emergency origin
    ok (unstop_entry pallet function (get? (pallet, function) s.emergency_stopped_pallets) s)

  unfoldable pub start_maintenance_mode : c.Origin → State → Result State
  start_maintenance_mode origin s = do
    c.ensure_emergency origin
    ensure (not s.maintenance_mode) Types.already_in_maintenance_mode
    ok (Types.deposit_event Types.maintenance_mode_started (record s { maintenance_mode = true }))

  unfoldable pub exit_maintenance_mode : c.Origin → State → Result State
  exit_maintenance_mode origin s = do
    c.ensure_emergency origin
    ensure s.maintenance_mode Types.not_in_maintenance_mode
    ok (Types.deposit_event Types.maintenance_mode_ended (record s { maintenance_mode = false }))

  -- `Contains::contains` of the pallet: the filter of the mode that the chain is in.
  unfoldable pub contains : c.RuntimeCall → State → Bool
  contains call s =
      if s.maintenance_mode then c.maintenance_call_filter call else c.normal_call_filter call

  -- `Contains::contains` of `EmergencyStoppedFilter`
  unfoldable pub is_stopped : c.RuntimeCall → State → Bool
  is_stopped call s =
      contains_key (c.pallet_of call, c.function_of call) s.emergency_stopped_pallets

pub data Call (c : Config) : Type 0 where
  stop unstop : c.Origin → Bytes → Bytes → Call c
  start_maintenance exit_maintenance : c.Origin → Call c

unfoldable pub dispatch : (c : Config) → Call c → State → Result State
dispatch c (stop o pallet function) s = emergency_stop c o pallet function s
dispatch c (unstop o pallet function) s = emergency_unstop c o pallet function s
dispatch c (start_maintenance o) s = start_maintenance_mode c o s
dispatch c (exit_maintenance o) s = exit_maintenance_mode c o s

-- A history of calls, in which a call that fails changes nothing.
unfoldable pub run : (c : Config) → List (Call c) → State → State
run c [] s = s
run c (call ∷ calls) s = run c calls (after s (dispatch c call s))
