-- ===== src/Base/Result.antt =====
-- A computation that may raise: its value, or the exception.
use mathlib.Core.Path.{◌≡◌, refl}
use mathlib.Core.Logic.{◌⊎◌, inl, inr}
use mathlib.Core.Bool.{Bool, true, false}
use mathlib.Core.Option.{Option, none, some}

pub data Result {ℓ κ} (E : Type κ) (A : Type ℓ) : Type (ℓ ⊔ κ) where
  ok : A → Result E A
  err : E → Result E A

infixl 5 ◌>>=◌ ◌>>◌
-- The statements after one that may raise.
abbrev pub ◌>>=◌ {ℓ κ μ} :
    {E : Type μ} {A : Type ℓ} {B : Type κ} (first : Result E A) (next : A → Result E B) → Result E B
err raised >>= next = err raised
ok value >>= next = next value

abbrev pub ◌>>◌ {ℓ μ} :
    {E : Type μ} {B : Type ℓ} (first : Result E (Unit {0})) → Result E B → Result E B
first >> next = first >>= (λ done. next)

-- What a successful sequence went through.
pub >>=-eq-ok {ℓ κ μ} :
    {E : Type μ} {A : Type ℓ} {B : Type κ} (first : Result E A) (next : A → Result E B) {b : B}
    → (first >>= next) ≡ ok b
    → (a : A) × (first ≡ ok a) × (next a ≡ ok b)
>>=-eq-ok (err raised) next h = cc
>>=-eq-ok (ok value) next h = (value, refl, h)

module _ {μ} {E : Type μ} where
  -- `if test: raise e`
  abbrev pub raise_if : Bool → E → Result E (Unit {0})
  raise_if false e = ok tt
  raise_if true e = err e

  pub raise_if-ok : (b : Bool) (e : E) → raise_if b e ≡ ok tt → b ≡ false
  raise_if-ok false e h = refl
  raise_if-ok true e h = cc h

  -- A lookup whose absence raises.
  abbrev pub or_raise {ℓ} : {A : Type ℓ} → Option A → E → Result E A
  or_raise none e = err e
  or_raise (some a) e = ok a

  pub or_raise-ok {ℓ} :
      {A : Type ℓ} (o : Option A) (e : E) {a : A} → or_raise o e ≡ ok a → o ≡ some a
  or_raise-ok none e h = cc h
  or_raise-ok (some a) e h = cc h

  pub ok-injective {ℓ} : {A : Type ℓ} {a b : A} → ◌≡◌ {A = Result E A} (ok a) (ok b) → a ≡ b
  ok-injective h = cc h

  pub Result-cases {ℓ} :
      {A : Type ℓ} (r : Result E A) → ((a : A) × (r ≡ ok a)) ⊎ ((e : E) × (r ≡ err e))
  Result-cases (ok a) = inl (a, refl)
  Result-cases (err e) = inr (e, refl)

-- `try: … except E as exc: raise f(exc)`
abbrev pub map_err {ℓ κ μ} :
    {E : Type μ} {F : Type κ} {A : Type ℓ} → (E → F) → Result E A → Result F A
map_err f (ok a) = ok a
map_err f (err e) = err (f e)

pub map_err-ok {ℓ κ μ} :
    {E : Type μ} {F : Type κ} {A : Type ℓ} (f : E → F) (r : Result E A) {a : A}
    → map_err f r ≡ ok a
    → r ≡ ok a
map_err-ok f (ok a) h = cc h
map_err-ok f (err e) h = cc h

abbrev pub map_ok {ℓ κ μ} :
    {E : Type μ} {A : Type κ} {B : Type ℓ} → (A → B) → Result E A → Result E B
map_ok f (ok a) = ok (f a)
map_ok f (err e) = err e
