-- ===== src/Go/Order.antt =====
-- Go maps as `range` sees them: the pairs in an order that the language does not specify. The map itself
-- is what is left when the order is forgotten.
use mathlib.Core.Quot
use mathlib.Core.Quot.{Quot, Quot-set}
use opendevops_codo_golang_s.Go.Dict.{index, lookup, bytes_eq}
use opendevops_codo_golang_s.Common.{
  Bytes, List, ◌∷◌, ◌≡◌, ◌≢◌, arith, same_iff, ap, if◌then◌else◌, same, some, none, [],
}

-- Two neighbours change places; the keys of a map are different.
pub data Swap {ℓ} {V : Type ℓ} : List (Bytes × V) → List (Bytes × V) → Type ℓ where
  here :
      (k j : Bytes) (v w : V) (m : List (Bytes × V))
      → k ≢ j
      → Swap ((k, v) ∷ (j, w) ∷ m) ((j, w) ∷ (k, v) ∷ m)
  there : (p : Bytes × V) {m n : List (Bytes × V)} → Swap m n → Swap (p ∷ m) (p ∷ n)

abbrev pub GoMap {ℓ} : Type ℓ → Type ℓ
GoMap V = Quot (Swap {V = V})

abbrev pub range_of {ℓ} : {V : Type ℓ} → List (Bytes × V) → GoMap V
range_of m = Quot.mk m

module _ {ℓ} {V : Type ℓ} where
  -- One more pair.
  unfoldable pub push : Bytes × V → GoMap V → GoMap V
  push p = Quot.lift Quot-set (λ m. Quot.mk (p ∷ m)) (λ m n s. Quot.sound (there p s))

  lookup-Swap : (at : Bytes) {m n : List (Bytes × V)} → Swap m n → lookup at m ≡ lookup at n
  unfolding lookup
  lookup-Swap at (here k j v w m h) = ground (arith, same_iff k at, same_iff j at)
  lookup-Swap at (there (k, v) s) = ap (λ o. if same k at then some v else o) (lookup-Swap at s)

pub index-Swap : (at : Bytes) {m n : List (Bytes × Bytes)} → Swap m n → index m at ≡ index n at
unfolding index
index-Swap at s = ap (λ o. elim o [ none ↦ [] | some v ↦ v ]) (lookup-Swap at s)
