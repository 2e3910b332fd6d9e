-- ===== src/Reservations/Checks.antt =====
-- The early returns of the booking operation as a monad: a check passes, refuses or throws.
use info_room_reservation_si.Prelude.{◌≡◌, refl, Bool, true, false, Option, none, some}
use info_room_reservation_si.Reservations.{Reason, Exception, Try, ok, throw}

pub data Check {ℓ} (A : Type ℓ) : Type ℓ where
  pass : A → Check A
  refuse : Reason → Check A
  fail : Exception → Check A

infixl 5 ◌>>=◌ ◌>>◌
abbrev pub ◌>>=◌ {ℓ κ} : {A : Type ℓ} {B : Type κ} → Check A → (A → Check B) → Check B
pass a >>= f = f a
refuse r >>= f = refuse r
fail e >>= f = fail e

abbrev pub ◌>>◌ {ℓ} : {B : Type ℓ} → Check (Unit {0}) → Check B → Check B
m >> k = m >>= λ _. k

-- `if (!test) return { kind: "error", reason }`
abbrev pub require : Bool → Reason → Check (Unit {0})
require true reason = pass tt
require false reason = refuse reason

abbrev pub call {ℓ} : {A : Type ℓ} → Try A → Check A
call (ok a) = pass a
call (throw e) = fail e

abbrev pub or_refuse {ℓ} : {A : Type ℓ} → Option A → Reason → Check A
or_refuse none reason = refuse reason
or_refuse (some a) reason = pass a

pub >>=-eq-pass {ℓ κ} :
    {A : Type ℓ} {B : Type κ} (m : Check A) (f : A → Check B) {b : B}
    → (m >>= f) ≡ pass b
    → (a : A) × (m ≡ pass a) × (f a ≡ pass b)
>>=-eq-pass (pass a) f h = (a, refl, h)
>>=-eq-pass (refuse r) f h = cc
>>=-eq-pass (fail e) f h = cc

pub require-eq-pass {ℓ} :
    {B : Type ℓ} (test : Bool) (reason : Reason) (k : Check B) {b : B}
    → (require test reason >> k) ≡ pass b
    → (test ≡ true) × (k ≡ pass b)
require-eq-pass true reason k h = (refl, h)
require-eq-pass false reason k h = cc

pub call-eq-pass {ℓ} : {A : Type ℓ} (m : Try A) {a : A} → call m ≡ pass a → m ≡ ok a
call-eq-pass (ok x) h = cc
call-eq-pass (throw e) h = cc

pub or_refuse-eq-pass {ℓ} :
    {A : Type ℓ} (o : Option A) (reason : Reason) {a : A} → or_refuse o reason ≡ pass a → o ≡ some a
or_refuse-eq-pass none reason h = cc
or_refuse-eq-pass (some x) reason h = cc
