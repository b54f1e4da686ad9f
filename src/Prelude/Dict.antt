-- ===== src/Prelude/Dict.antt =====
-- `HashMap`: `insert` replaces the value of a key that is there, `get` finds it.
-- The entries stand in the order of their first insertion; the source promises no order.
use mathlib.Core.Path.{◌≡◌, refl, subst}
use mathlib.Core.Logic.{inl, inr}
use mathlib.Core.Option.{Option, none, some}
use mathlib.Core.List.{List, [], ◌∷◌, map}
use native.Mathlib.Omega.{arith}
use allegro.Prelude.Tests.{if◌then◌else◌, Bool-cases}
use allegro.Prelude.Equality.{KeyEq, ◌==◌, ==_refl}

abbrev pub Dict {ℓ κ} : Type ℓ → Type κ → Type (ℓ ⊔ κ)
Dict K V = List (K × V)

module _ {ℓ κ} {K : Type ℓ} {V : Type κ} ⦃e : KeyEq K⦄ where
  unfoldable pub get : Dict K V → K → Option V
  get [] k = none
  get ((j, v) ∷ d) k = if j == k then some v else get d k

  unfoldable pub insert : Dict K V → K → V → Dict K V
  insert [] k v = (k, v) ∷ []
  insert ((j, w) ∷ d) k v = if j == k then (k, v) ∷ d else (j, w) ∷ insert d k v

  abbrev pub keys : Dict K V → List K
  keys = map (λ p. p.0)

  -- A lookup after an insertion.
  pub get-insert :
      (d : Dict K V) (k j : K) (v : V) → get (insert d k v) j ≡ (if k == j then some v else get d j)
  unfolding get insert
  get-insert [] k j v = refl
  get-insert ((i, w) ∷ d) k j v =
      ground (arith, get-insert d k j v, e.same_iff k j, e.same_iff i k, e.same_iff i j)

  pub get-insert_self : (d : Dict K V) (k : K) (v : V) → get (insert d k v) k ≡ some v
  get-insert_self d k v = rw (get-insert d k k v, ==_refl k) refl

-- Every entry that can be looked up.
pub record Everywhere {ℓ κ μ} {K : Type ℓ} {V : Type κ} ⦃e : KeyEq K⦄ (P : K → V → Type μ)
    (d : Dict K V) : Type (ℓ ⊔ κ ⊔ μ) where
  pub at : (k : K) (v : V) → get d k ≡ some v → P k v

pub Everywhere-insert {ℓ κ μ} :
    {K : Type ℓ} {V : Type κ} ⦃e : KeyEq K⦄ (P : K → V → Type μ) (d : Dict K V) (k : K) (v : V)
    → Everywhere P d
    → P k v
    → Everywhere P (insert d k v)
Everywhere-insert ⦃e⦄ P d k v h p = record {
  at = λ j w found. elim (Bool-cases (k == j)) [
    | inl hit ↦
        subst (λ x. P x w) ((e.same_iff k j).0 hit)
          (subst (P k) (ground (arith, get-insert d k j v)) p)
    | inr miss ↦ h.at j w (ground (arith, get-insert d k j v))
  ];
}
