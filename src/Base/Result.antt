-- ===== src/Base/Result.antt =====
-- The errors that the service's packages return, told apart the way `errors.Is` does, and chains of
-- fallible steps. The text of an error's message is not modelled.
use mathlib.Core.Path.{◌≡◌, refl}
use mathlib.Core.Logic.{◌↔◌, ◌⊎◌, inl, inr}
use mathlib.Core.Bool.{Bool, true, false}
use mathlib.Core.Option.{Option, none, some}

pub data Error : Type 0 where
  not_found already_exists owned_by_source reserved forbidden cycle : Error
  invalid_token invalid_relation invalid_expiry invalid_id : Error
  record_not_found reservation_conflict import_error : Error
  -- An error with no sentinel of its own.
  other : Error

pub data Result {i} (A : Type i) : Type i where
  err : Error → Result A
  ok : A → Result A

-- A condition that must hold, with the error that it gives otherwise.
abbrev pub guard : (holds : Bool) → (why : Error) → Result (Unit {0})
guard false why = err why
guard true why = ok tt

abbrev pub or_fail {i} : {A : Type i} → Option A → Error → Result A
or_fail none why = err why
or_fail (some a) why = ok a

infixl 5 ◌>>=◌ ◌>>◌
abbrev pub ◌>>=◌ {i j} : {A : Type i} {B : Type j} (r : Result A) (next : A → Result B) → Result B
err why >>= next = err why
ok a >>= next = next a

abbrev pub ◌>>◌ {j} : {B : Type j} (check : Result (Unit {0})) (next : Result B) → Result B
check >> next = check >>= λ _. next

pub Result-cases {ℓ} :
    {A : Type ℓ} (r : Result A) → ((a : A) × (r ≡ ok a)) ⊎ ((e : Error) × (r ≡ err e))
Result-cases (ok a) = inl (a, refl)
Result-cases (err e) = inr (e, refl)

pub >>=-eq-ok {i j} :
    {A : Type i} {B : Type j} (r : Result A) (next : A → Result B) {b : B}
    → (r >>= next) ≡ ok b
    → (a : A) × (r ≡ ok a) × (next a ≡ ok b)
>>=-eq-ok (err why) next h = cc
>>=-eq-ok (ok a) next h = (a, refl, h)

pub ok-inj {i} : {A : Type i} {a b : A} → ok a ≡ ok b → a ≡ b
ok-inj h = cc

pub guard_iff : (b : Bool) (why : Error) → (guard b why ≡ ok tt) ↔ (b ≡ true)
guard_iff true why = (λ h. refl, λ h. refl)
guard_iff false why = (λ h. absurd (cc), λ h. absurd (cc))
