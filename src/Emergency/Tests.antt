-- ===== src/Emergency/Tests.antt =====
-- The theorems on pallets/emergency at concrete states of a small runtime: the origin 0 is the
-- emergency origin, a call is a pallet's name with a function's, and names are short byte lists.
use versus_project_metaverse.Prelude.{
  ℕ, true, false, ok, err, is_ok, module_error, bad_origin, refl, ◌≡◌, ◌≢◌, [], ◌∷◌, ◌==◌,
  if◌then◌else◌, pair_eq, value_or, List,
}
use versus_project_metaverse.Prelude.Maps.{get?, insert}
use versus_project_metaverse.Emergency.Types.{Config, State, Bytes, bytes_beq, bytes_eq}
use versus_project_metaverse.Emergency.Types
use versus_project_metaverse.Emergency.Calls
use versus_project_metaverse.Emergency.Calls.{Call, dispatch, run}
use versus_project_metaverse.Emergency.Laws.{
  stopped, emergency_stop_lem, IsOperable, run-IsOperable, switched_back, maintenance_mode_lem,
}

abbrev own_name : Bytes
own_name = 69 ∷ []

abbrev nft : Bytes
nft = 78 ∷ []

abbrev mint : Bytes
mint = 109 ∷ []

abbrev runtime : Config
runtime = record {
  Origin = ℕ;
  ensure_emergency = λ o. if o == 0 then ok tt else err bad_origin;
  RuntimeCall = Bytes × Bytes;
  normal_call_filter = λ _. true;
  maintenance_call_filter = λ call. bytes_beq (call.0) own_name;
  pallet_of = λ call. call.0;
  function_of = λ call. call.1;
  is_utf8 = λ _. true;
  pallet_name = own_name;
}

abbrev start : State
start = record { emergency_stopped_pallets = []; maintenance_mode = false; events = [] }

abbrev halted : State
halted = value_or start (Calls.emergency_stop runtime 0 nft mint start)

abbrev resumed : State
resumed = value_or start (Calls.emergency_unstop runtime 0 nft mint halted)

abbrev maintained : State
maintained = value_or start (Calls.start_maintenance_mode runtime 0 start)

emergency_stop_lem_example :
    (stopped nft mint halted ≡ true) × (nft ≢ own_name) × (halted.maintenance_mode ≡ false)
unfolding Calls.emergency_stop get? insert
emergency_stop_lem_example = emergency_stop_lem runtime 0 nft mint nft mint start halted refl

maintenance_mode_lem_example :
    (Calls.contains runtime (nft, mint) start ≡ true)
    × (Calls.contains runtime (nft, mint) maintained ≡ false)
    × (Calls.start_maintenance_mode runtime 0 maintained
        ≡ err (module_error Types.already_in_maintenance_mode))
    × (Calls.exit_maintenance_mode runtime 0 maintained ≡ ok (switched_back runtime start))
    × (Calls.exit_maintenance_mode runtime 0 (switched_back runtime start)
        ≡ err (module_error Types.not_in_maintenance_mode))
    × (is_ok (Calls.start_maintenance_mode runtime 0 (switched_back runtime start)) ≡ true)
unfolding Calls.start_maintenance_mode
maintenance_mode_lem_example = maintenance_mode_lem runtime 0 (nft, mint) start maintained refl

abbrev history : List (Call runtime)
history =
    Calls.stop 0 nft mint
    ∷ Calls.stop 0 own_name mint
    ∷ Calls.start_maintenance 0
    ∷ Calls.unstop 3 nft mint
    ∷ []

start-IsOperable : IsOperable runtime start
unfolding get?
start-IsOperable = record { running = λ _. refl; distinct = tt }

run-IsOperable_example : IsOperable runtime (run runtime history start)
run-IsOperable_example = run-IsOperable runtime history start start-IsOperable
