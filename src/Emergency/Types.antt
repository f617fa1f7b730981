-- ===== src/Emergency/Types.antt =====
-- pallets/emergency/src/lib.rs: the errors, the events, the configuration and the storage. Names of
-- pallets and functions are their bytes.
use versus_project_metaverse.Prelude.{
  ℕ, Bool, true, false, ◌&&◌, List, [], ◌∷◌, Outcome, ◌==◌, ◌≡◌, ◌↔◌, Eq, arith,
}
use versus_project_metaverse.Prelude.Maps.{Map}

abbrev pub Bytes : Type 0
Bytes = List ℕ

abbrev pub bytes_beq : Bytes → Bytes → Bool
bytes_beq [] [] = true
bytes_beq (a ∷ s) (b ∷ t) = a == b && bytes_beq s t
bytes_beq _ _ = false

pub bytes_beq_iff : (s t : Bytes) → (bytes_beq s t ≡ true) ↔ (s ≡ t)
bytes_beq_iff [] [] = ground arith
bytes_beq_iff (a ∷ s) (b ∷ t) = ground (arith, bytes_beq_iff s t)
bytes_beq_iff [] (b ∷ t) = ground arith
bytes_beq_iff (a ∷ s) [] = ground arith

instance abbrev pub bytes_eq : Eq Bytes
bytes_eq = record { beq = bytes_beq; beq_iff = bytes_beq_iff }

-- `Error<T>`
pub data Error : Type 0 where
  cannot_stop_emergency_call invalid_pallet_and_function : Error
  already_in_maintenance_mode not_in_maintenance_mode : Error

-- `Event<T>`
pub data Event : Type 0 where
  emergency_stopped emergency_unstopped : Bytes → Bytes → Event
  maintenance_mode_started maintenance_mode_ended : Event

abbrev pub Result : Type 0 → Type 0
Result A = Outcome Error A

-- The associated types of `Config`. `is_utf8` tells the valid UTF-8 texts, and `pallet_name` is the
-- name of this pallet in the runtime.
pub record Config : Type 1 where
  pub Origin : Type 0
  pub ensure_emergency : Origin → Result (Unit {0})
  pub RuntimeCall : Type 0
  pub normal_call_filter : RuntimeCall → Bool
  pub maintenance_call_filter : RuntimeCall → Bool
  pub pallet_of : RuntimeCall → Bytes
  pub function_of : RuntimeCall → Bytes
  pub is_utf8 : Bytes → Bool
  pub pallet_name : Bytes

-- The newest event is first.
pub record State : Type 0 where
  pub emergency_stopped_pallets : Map (Bytes × Bytes) (Unit {0})
  pub maintenance_mode : Bool
  pub events : List Event

abbrev pub deposit_event : Event → State → State
deposit_event e s = record s { events = e ∷ s.events }
