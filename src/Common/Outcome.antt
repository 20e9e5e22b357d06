-- ===== src/Common/Outcome.antt =====
-- `Result<T, E>` and the `?` operator.
use mathlib.Core.Path.{◌≡◌, refl}
use mathlib.Core.Bool.{Bool, true, false}
use mathlib.Core.Option.{Option, none, some}
use mathlib.Core.Logic.{◌⊎◌, inl, inr}

pub data Result {ℓ κ} (A : Type ℓ) (E : Type κ) : Type (ℓ ⊔ κ) where
  ok : A → Result A E
  err : E → Result A E

infixl 5 ◌>>=◌ ◌>>◌
abbrev pub ◌>>=◌ {ℓ κ ι} :
    {A : Type ℓ} {B : Type κ} {E : Type ι} → Result A E → (A → Result B E) → Result B E
err failure >>= next = err failure
ok value >>= next = next value

abbrev pub map_err {ℓ κ ι} :
    {A : Type ℓ} {E : Type κ} {F : Type ι} → (E → F) → Result A E → Result A F
map_err f (err failure) = err (f failure)
map_err f (ok value) = ok value

abbrev pub ◌>>◌ {ℓ ι} : {A : Type ℓ} {E : Type ι} → Result (Unit {0}) E → Result A E → Result A E
first >> second = first >>= λ done. second

-- An early return with an error, unless the test holds.
abbrev pub ensure {ι} : {E : Type ι} → Bool → E → Result (Unit {0}) E
ensure test failure = elim test [ false ↦ err failure | true ↦ ok tt ]

abbrev pub ok_or {ℓ ι} : {A : Type ℓ} {E : Type ι} → E → Option A → Result A E
ok_or e none = err e
ok_or e (some a) = ok a

pub >>=-eq-ok {ℓ κ ι} :
    {A : Type ℓ} {B : Type κ} {E : Type ι} (first : Result A E) (next : A → Result B E) {b : B}
    → (first >>= next) ≡ ok b
    → (value : A) × (first ≡ ok value) × (next value ≡ ok b)
>>=-eq-ok (err failure) next h = cc
>>=-eq-ok (ok value) next h = (value, refl, h)

pub ensure-eq-ok {ι} : {E : Type ι} (b : Bool) (e : E) {u : Unit {0}} → ensure b e ≡ ok u → b ≡ true
ensure-eq-ok true e h = refl
ensure-eq-ok false e h = cc

pub Result-cases {ℓ κ} :
    {A : Type ℓ} {E : Type κ} (r : Result A E) → ((a : A) × (r ≡ ok a)) ⊎ ((e : E) × (r ≡ err e))
Result-cases (ok a) = inl (a, refl)
Result-cases (err e) = inr (e, refl)
