-- ===== src/Emergency/Laws.antt =====
-- pallets/emergency/src/lib.rs: what can be stopped, and what stopping does.
use versus_project_metaverse.Prelude.{
  is_ok, true, ◌≡◌, ◌≢◌, Bool, false, not, ◌&&◌, ◌||◌, List, [], ◌∷◌, ok, err, panic, module_error,
  arith, pair_eq, Option-cases, inl, inr, after, refl,
}
use versus_project_metaverse.Prelude.Maps.{
  get?, contains_key, get?-insert, get?-remove, Distinct, insert-Distinct, remove-Distinct,
}
use versus_project_metaverse.Emergency.Types.{
  Config, State, Result, Bytes, bytes_beq, bytes_beq_iff, bytes_eq,
}
use versus_project_metaverse.Emergency.Types
use versus_project_metaverse.Emergency.Calls
use versus_project_metaverse.Emergency.Calls.{Call, dispatch, run}

-- The function is stopped.
abbrev pub stopped : Bytes → Bytes → State → Bool
stopped pallet function s = contains_key (pallet, function) s.emergency_stopped_pallets

module _ (c : Config) where
  -- A successful `emergency_stop` stops exactly the named function of the named pallet, beside what
  -- was stopped before, and never one of the emergency pallet itself.
  pub emergency_stop_lem :
      (o : c.Origin) (pallet function p f : Bytes) (s s' : State)
      → Calls.emergency_stop c o pallet function s ≡ ok s'
      → (stopped p f s' ≡ (stopped p f s || (bytes_beq pallet p && bytes_beq function f)))
        × (pallet ≢ c.pallet_name)
        × (s'.maintenance_mode ≡ s.maintenance_mode)
  unfolding Calls.emergency_stop
  emergency_stop_lem o pallet function p f s s' e =
      elim (Option-cases (get? (pallet, function) s.emergency_stopped_pallets)) [
        | inl running ↦ ground (
          arith,
          running,
          bytes_beq_iff pallet c.pallet_name,
          get?-insert (p, f) (pallet, function) tt s.emergency_stopped_pallets,
        )
        | inr (u, held) ↦ ground (
          arith,
          held,
          bytes_beq_iff pallet c.pallet_name,
          bytes_beq_iff pallet p,
          bytes_beq_iff function f,
        )
      ]

  -- A successful `emergency_unstop` releases exactly the named function of the named pallet.
  pub emergency_unstop_lem :
      (o : c.Origin) (pallet function p f : Bytes) (s s' : State)
      → Distinct s.emergency_stopped_pallets
      → Calls.emergency_unstop c o pallet function s ≡ ok s'
      → (stopped p f s' ≡ (stopped p f s && not (bytes_beq pallet p && bytes_beq function f)))
        × (s'.maintenance_mode ≡ s.maintenance_mode)
  unfolding Calls.emergency_unstop
  emergency_unstop_lem o pallet function p f s s' d e =
      elim (Option-cases (get? (pallet, function) s.emergency_stopped_pallets)) [
        | inl running ↦ ground (arith, running, bytes_beq_iff pallet p, bytes_beq_iff function f)
        | inr (u, held) ↦
            ground
              (arith, held, get?-remove (p, f) (pallet, function) s.emergency_stopped_pallets d)
      ]

  -- The functions of the emergency pallet run, and no entry stands twice.
  pub record IsOperable (s : State) : Type 0 where
    pub running : (f : Bytes) → stopped c.pallet_name f s ≡ false
    pub distinct : Distinct s.emergency_stopped_pallets

  stop-IsOperable :
      (o : c.Origin) (pallet function : Bytes) (s s' : State)
      → Calls.emergency_stop c o pallet function s ≡ ok s'
      → IsOperable s
      → IsOperable s'
  unfolding Calls.emergency_stop
  stop-IsOperable o pallet function s s' e h = record {
    running = λ f. ground (
      arith,
      h.running f,
      bytes_beq_iff pallet c.pallet_name,
      emergency_stop_lem o pallet function c.pallet_name f s s' e,
    );
    distinct = elim (Option-cases (get? (pallet, function) s.emergency_stopped_pallets)) [
      | inl running ↦ ground (
        arith,
        running,
        insert-Distinct (pallet, function) tt s.emergency_stopped_pallets h.distinct,
      )
      | inr (u, held) ↦ ground (arith, held, h.distinct)
    ];
  }

  unstop-IsOperable :
      (o : c.Origin) (pallet function : Bytes) (s s' : State)
      → Calls.emergency_unstop c o pallet function s ≡ ok s'
      → IsOperable s
      → IsOperable s'
  unfolding Calls.emergency_unstop
  unstop-IsOperable o pallet function s s' e h = record {
    running = λ f. ground (
      arith,
      h.running f,
      emergency_unstop_lem o pallet function c.pallet_name f s s' h.distinct e,
    );
    distinct = elim (Option-cases (get? (pallet, function) s.emergency_stopped_pallets)) [
      | inl running ↦ ground (arith, running, h.distinct)
      | inr (u, held) ↦
          ground
            (arith, held, remove-Distinct (pallet, function) s.emergency_stopped_pallets h.distinct)
    ];
  }

  mode-IsOperable :
      (s s' : State)
      → s'.emergency_stopped_pallets ≡ s.emergency_stopped_pallets
      → IsOperable s
      → IsOperable s'
  mode-IsOperable s s' e h = record {
    running = λ f. rw e (h.running f);
    distinct = rw e h.distinct;
  }

  dispatch-IsOperable :
      (call : Call c) (s s' : State) → dispatch c call s ≡ ok s' → IsOperable s → IsOperable s'
  unfolding dispatch Calls.start_maintenance_mode Calls.exit_maintenance_mode
  dispatch-IsOperable (Calls.stop o pallet function) s s' e =
      stop-IsOperable o pallet function s s' e
  dispatch-IsOperable (Calls.unstop o pallet function) s s' e =
      unstop-IsOperable o pallet function s s' e
  dispatch-IsOperable (Calls.start_maintenance o) s s' e = mode-IsOperable s s' (ground arith)
  dispatch-IsOperable (Calls.exit_maintenance o) s s' e = mode-IsOperable s s' (ground arith)

  after-IsOperable :
      (call : Call c) (s : State) → IsOperable s → IsOperable (after s (dispatch c call s))
  after-IsOperable call s h = go (dispatch c call s) refl
    where
      go : (r : Result State) → dispatch c call s ≡ r → IsOperable (after s r)
      go (ok s') e = dispatch-IsOperable call s s' e h
      go (err _) e = h
      go panic e = h

  -- From a state where every function of the emergency pallet runs and no entry stands twice, no
  -- history of calls, failed ones among them, leads to one where this fails.
  pub run-IsOperable :
      (calls : List (Call c)) (s : State) → IsOperable s → IsOperable (run c calls s)
  unfolding run
  run-IsOperable [] s h = h
  run-IsOperable (call ∷ calls) s h =
      run-IsOperable calls (after s (dispatch c call s)) (after-IsOperable call s h)

  -- The state after entering the maintenance mode and leaving it.
  abbrev pub switched_back : State → State
  switched_back s = record s {
    events = Types.maintenance_mode_ended ∷ Types.maintenance_mode_started ∷ s.events;
  }

  -- In maintenance mode the maintenance filter decides about a call, else the normal one, and the
  -- two calls that switch the mode succeed by turns: right after entering the mode has succeeded it
  -- fails with `AlreadyInMaintenanceMode`, and leaving it brings the old mode back; right after
  -- that, leaving it fails with `NotInMaintenanceMode`, and entering it succeeds again.
  pub maintenance_mode_lem :
      (o : c.Origin) (call : c.RuntimeCall) (s s' : State)
      → Calls.start_maintenance_mode c o s ≡ ok s'
      → (Calls.contains c call s ≡ c.normal_call_filter call)
        × (Calls.contains c call s' ≡ c.maintenance_call_filter call)
        × (Calls.start_maintenance_mode c o s'
            ≡ err (module_error Types.already_in_maintenance_mode))
        × (Calls.exit_maintenance_mode c o s' ≡ ok (switched_back s))
        × (Calls.exit_maintenance_mode c o (switched_back s)
            ≡ err (module_error Types.not_in_maintenance_mode))
        × (is_ok (Calls.start_maintenance_mode c o (switched_back s)) ≡ true)
  unfolding Calls.start_maintenance_mode Calls.exit_maintenance_mode Calls.contains
  maintenance_mode_lem o call s s' e = ground arith
