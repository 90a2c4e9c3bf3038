-- ===== src/Base/Outcome.antt =====
-- The exceptions of shared/errors.py, results, and handlers over a state: what a handler wrote
-- before it raised stays written.
use Prim.Native.Nat.{ℕ}
use Prim.Native.String.{String}
use mathlib.Core.Path.{◌≡◌, refl}
use mathlib.Core.Bool.{Bool, true, false}
use mathlib.Core.Option.{Option, none, some}
use mathlib.Core.Logic.{◌⊎◌, inl, inr}

-- `app` is an `AppError` with its status code, its code and its message; `invalid_event` is the
-- NotificationEventValidationError of notifications/events.py; `crash` is any other exception. The
-- application turns the last two into a 500.
pub data Error : Type 0 where
  app : ℕ → String → String → Error
  invalid_event : String → Error
  crash : Error

abbrev pub unauthorized : String → Error
unauthorized = app 401 "unauthorized"

abbrev pub validation : String → Error
validation = app 400 "validation_error"

abbrev pub not_found : String → Error
not_found = app 404 "not_found"

abbrev pub conflict : String → Error
conflict = app 409 "conflict"

abbrev pub forbidden : String → Error
forbidden = app 403 "forbidden"

abbrev pub status_code : Error → ℕ
status_code (app status _ _) = status
status_code _ = 500

pub data Result {ℓ} (A : Type ℓ) : Type ℓ where
  ok : A → Result A
  err : Error → Result A

abbrev pub and_then {ℓ κ} : {A : Type ℓ} {B : Type κ} → Result A → (A → Result B) → Result B
and_then (ok a) f = f a
and_then (err e) f = err e

abbrev pub require : Bool → Error → Result (Unit {0})
require true e = ok tt
require false e = err e

abbrev pub or_error {ℓ} : {A : Type ℓ} → Option A → Error → Result A
or_error none e = err e
or_error (some a) e = ok a

pub Result-cases {ℓ} :
    {A : Type ℓ} (r : Result A) → ((a : A) × (r ≡ ok a)) ⊎ ((e : Error) × (r ≡ err e))
Result-cases (ok a) = inl (a, refl)
Result-cases (err e) = inr (e, refl)

pub ok-injective {ℓ} : {A : Type ℓ} {a b : A} → ok a ≡ ok b → a ≡ b
ok-injective h = cc

-- Inversions of a chain that ended well.
pub and_then-ok {ℓ κ} :
    {A : Type ℓ} {B : Type κ} (m : Result A) (f : A → Result B) {b : B}
    → and_then m f ≡ ok b
    → (a : A) × (m ≡ ok a) × (f a ≡ ok b)
and_then-ok (ok a) f h = (a, refl, h)
and_then-ok (err e) f h = cc

pub require-ok : (b : Bool) (e : Error) {u : Unit {0}} → require b e ≡ ok u → b ≡ true
require-ok true e h = refl
require-ok false e h = cc

pub or_error-ok {ℓ} :
    {A : Type ℓ} (o : Option A) (e : Error) {a : A} → or_error o e ≡ ok a → o ≡ some a
or_error-ok none e h = cc
or_error-ok (some b) e h = cc

-- A handler: its answer or its exception, and the state that it leaves.
abbrev pub Handler : Type 0 → Type 0 → Type 0
Handler W A = W → Result A × W

module _ {W A : Type 0} where
  abbrev pub return : A → Handler W A
  return a w = (ok a, w)

  abbrev pub raise : Error → Handler W A
  raise e w = (err e, w)

  abbrev pub lift : Result A → Handler W A
  lift r w = (r, w)

  abbrev pub gets : (W → A) → Handler W A
  gets f w = (ok (f w), w)

abbrev pub modify : {W : Type 0} → (W → W) → Handler W (Unit {0})
modify f w = (ok tt, f w)

abbrev proceed : {W A B : Type 0} → (A → Handler W B) → Result A → W → Result B × W
proceed f (ok a) w = f a w
proceed f (err e) w = (err e, w)

infixl 5 ◌>>=◌ ◌>>◌
abbrev pub ◌>>=◌ : {W A B : Type 0} → Handler W A → (A → Handler W B) → Handler W B
◌>>=◌ m f w = let (r, w') = m w in proceed f r w'

abbrev pub ◌>>◌ : {W A B : Type 0} → Handler W A → Handler W B → Handler W B
m >> k = m >>= λ _. k
