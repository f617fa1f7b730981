-- ===== src/Prelude/Dispatch.antt =====
-- What a dispatched call returns: `DispatchResult` with the pallet's own error type `E`, or a
-- panic, which aborts the call.
use Prim.Native.Nat.{ℕ}
use mathlib.Core.Path.{◌≡◌, refl, ap}
use mathlib.Core.Logic.{◌⊎◌, inl, inr}
use mathlib.Core.Bool.{Bool, true, false}
use mathlib.Core.Option.{Option, none, some}

-- `other` is `DispatchError::Other`, less its text, and `external` carries the code of an error that
-- another pallet raised.
pub data DispatchError (E : Type 0) : Type 0 where
  module_error : E → DispatchError E
  overflow underflow bad_origin other : DispatchError E
  external : ℕ → DispatchError E

pub data Outcome (E A : Type 0) : Type 0 where
  ok : A → Outcome E A
  err : DispatchError E → Outcome E A
  panic : Outcome E A

infixl 5 ◌>>=◌ ◌>>◌
abbrev pub ◌>>=◌ : {E A B : Type 0} → Outcome E A → (A → Outcome E B) → Outcome E B
ok a >>= f = f a
err e >>= f = err e
panic >>= f = panic

abbrev pub ◌>>◌ : {E B : Type 0} → Outcome E (Unit {0}) → Outcome E B → Outcome E B
m >> k = m >>= λ _. k

-- `ensure!(test, Error::<T>::e)`
abbrev pub ensure : {E : Type 0} → Bool → E → Outcome E (Unit {0})
ensure true e = ok tt
ensure false e = err (module_error e)

-- `Option::ok_or(e)?`
abbrev pub ok_or : {E A : Type 0} → Option A → DispatchError E → Outcome E A
ok_or none e = err e
ok_or (some a) e = ok a

-- `unwrap_or_default` on the state: a call that fails leaves the state as it was.
abbrev pub after : {E S : Type 0} → S → Outcome E S → S
after s (ok t) = t
after s (err e) = s
after s panic = s

abbrev pub is_ok : {E A : Type 0} → Outcome E A → Bool
is_ok (ok a) = true
is_ok (err e) = false
is_ok panic = false

pub Outcome-cases : {E A : Type 0} (m : Outcome E A) → ((a : A) × (m ≡ ok a)) ⊎ (is_ok m ≡ false)
Outcome-cases (ok a) = inl (a, refl)
Outcome-cases (err e) = inr refl
Outcome-cases panic = inr refl

-- Inversion of a successful bind.
pub >>=-eq_ok :
    {E A B : Type 0} (m : Outcome E A) (f : A → Outcome E B) {b : B}
    → (m >>= f) ≡ ok b
    → (a : A) × (m ≡ ok a) × (f a ≡ ok b)
>>=-eq_ok (ok a) f h = (a, refl, h)
>>=-eq_ok (err e) f h = cc
>>=-eq_ok panic f h = cc

-- The value of a result, with one to stand in for it.
abbrev pub value_or : {E A : Type 0} → A → Outcome E A → A
value_or d (ok a) = a
value_or d (err e) = d
value_or d panic = d

pub ok-injective : {E A : Type 0} {a b : A} → ◌≡◌ {A = Outcome E A} (ok a) (ok b) → a ≡ b
ok-injective {E} {a = a} h = ap (value_or {E = E} a) h
