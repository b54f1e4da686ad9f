-- ===== src/Prelude/Calls.antt =====
-- `Result<A, E>` and `?`, and calls that also change a state, which stays changed after an error.
use mathlib.Core.Path.{◌≡◌, refl, ap}
use mathlib.Core.Option.{Option, none, some}

pub data Result {ℓ κ} (A : Type ℓ) (E : Type κ) : Type (ℓ ⊔ κ) where
  ok : A → Result A E
  err : E → Result A E

abbrev pub ok_or {ℓ κ} : {A : Type ℓ} {E : Type κ} → Option A → E → Result A E
ok_or none e = err e
ok_or (some a) e = ok a

abbrev pub map_err {ℓ κ μ} :
    {A : Type ℓ} {E : Type κ} {F : Type μ} → (E → F) → Result A E → Result A F
map_err f (ok a) = ok a
map_err f (err e) = err (f e)

abbrev pub and_then {ℓ κ μ} :
    {A : Type ℓ} {B : Type κ} {E : Type μ} → Result A E → (A → Result B E) → Result B E
and_then (ok a) f = f a
and_then (err e) f = err e

-- An asynchronous call that reads and writes `W`.
abbrev pub Call : Type 0 → Type 0 → Type 0 → Type 0
Call W A E = W → Result A E × W

module _ {W A E : Type 0} where
  abbrev pub pure : A → Call W A E
  pure a w = (ok a, w)

  abbrev pub raise : E → Call W A E
  raise e w = (err e, w)

  abbrev pub lift : Result A E → Call W A E
  lift r w = (r, w)

abbrev pub map_err_call : {W A E F : Type 0} → (E → F) → Call W A E → Call W A F
map_err_call f m w = let (r, w') = m w in (map_err f r, w')

infixl 5 ◌>>=◌ ◌>>◌
abbrev pub ◌>>=◌ : {W A B E : Type 0} → Call W A E → (A → Call W B E) → Call W B E
◌>>=◌ m f w = let (r, w') = m w in elim r [ ok a ↦ f a w' | err e ↦ (err e, w') ]

abbrev pub ◌>>◌ : {W B E : Type 0} → Call W (Unit {0}) E → Call W B E → Call W B E
m >> k = m >>= λ _. k

-- Inversion of a call that was followed by another one and returned.
pub >>=-eq-ok :
    {W A B E : Type 0} (m : Call W A E) (f : A → Call W B E) (w : W) {b : B}
    → ((m >>= f) w).0 ≡ ok b
    → (a : A) × ((m w).0 ≡ ok a) × ((f a (m w).1).0 ≡ ok b)
>>=-eq-ok {W} {A} {B} {E} m f w {b} h = go (m w).0 h
  where
    go :
        (r : Result A E)
        → (elim r as (λ _. Result B E × W) [ ok a ↦ f a (m w).1 | err e ↦ (err e, (m w).1) ]).0
          ≡ ok b
        → (a : A) × (r ≡ ok a) × ((f a (m w).1).0 ≡ ok b)
    go (ok a) e = (a, refl, e)
    go (err x) e = cc

-- A call that is followed by another one, and returns.
pub >>=-at-ok :
    {W A B E : Type 0} (m : Call W A E) (f : A → Call W B E) (w : W) {a : A}
    → (m w).0 ≡ ok a
    → (m >>= f) w ≡ f a (m w).1
>>=-at-ok {W} {A} {B} {E} m f w h =
    ap (λ r. elim r as (λ _. Result B E × W) [ ok a ↦ f a (m w).1 | err e ↦ (err e, (m w).1) ]) h

-- The same of results.
pub and_then-eq-ok {ℓ κ μ} :
    {A : Type ℓ} {B : Type κ} {E : Type μ} (r : Result A E) (f : A → Result B E) {b : B}
    → and_then r f ≡ ok b
    → (a : A) × (r ≡ ok a) × (f a ≡ ok b)
and_then-eq-ok (ok a) f h = (a, refl, h)
and_then-eq-ok (err e) f h = cc

pub map_err-eq-ok {ℓ κ μ} :
    {A : Type ℓ} {E : Type κ} {F : Type μ} (f : E → F) (r : Result A E) {a : A}
    → map_err f r ≡ ok a
    → r ≡ ok a
map_err-eq-ok f (ok x) h = cc
map_err-eq-ok f (err e) h = cc
