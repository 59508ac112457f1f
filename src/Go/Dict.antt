-- ===== src/Go/Dict.antt =====
-- Go maps, as association lists: the first pair of a key counts.
use opendevops_codo_golang_s.Common.{
  ◌≡◌, ◌↔◌, refl, Bool, true, false, List, [], ◌∷◌, Option, none, some, arith, if◌then◌else◌, Bytes,
  same, ◌==◌, same_iff, ℕ,
}
use opendevops_codo_golang_s.Go.Number.{ℤ, pos, negsuc}

-- A type of keys.
pub record Eq {ℓ} (K : Type ℓ) : Type ℓ where
  pub beq : K → K → Bool
  pub beq_iff : (a b : K) → (beq a b ≡ true) ↔ (a ≡ b)

instance abbrev pub bytes_eq : Eq Bytes
bytes_eq = record { beq = same; beq_iff = same_iff }

pub nat_beq_iff : (a b : ℕ) → ((a == b) ≡ true) ↔ (a ≡ b)
nat_beq_iff a b = ground arith

instance abbrev pub nat_eq : Eq ℕ
nat_eq = record { beq = λ a b. a == b; beq_iff = nat_beq_iff }

abbrev pub int_beq : ℤ → ℤ → Bool
int_beq (pos a) (pos b) = a == b
int_beq (negsuc a) (negsuc b) = a == b
int_beq _ _ = false

pub int_beq_iff : (a b : ℤ) → (int_beq a b ≡ true) ↔ (a ≡ b)
int_beq_iff (pos a) (pos b) = ground arith
int_beq_iff a b = ground arith

instance abbrev pub int_eq : Eq ℤ
int_eq = record { beq = int_beq; beq_iff = int_beq_iff }

module _ {ℓ κ} {K : Type κ} ⦃e : Eq K⦄ {V : Type ℓ} where
  -- v, ok := m[k]
  unfoldable pub lookup : K → List (K × V) → Option V
  lookup k [] = none
  lookup k ((j, v) ∷ m) = if e.beq j k then some v else lookup k m

  -- m[k] = v
  unfoldable pub insert : K → V → List (K × V) → List (K × V)
  insert k v [] = (k, v) ∷ []
  insert k v ((j, w) ∷ m) = if e.beq j k then (k, v) ∷ m else (j, w) ∷ insert k v m

  -- delete(m, k)
  unfoldable pub remove : K → List (K × V) → List (K × V)
  remove k [] = []
  remove k ((j, v) ∷ m) = let rest = remove k m in if e.beq j k then rest else (j, v) ∷ rest

  pub lookup-insert :
      (m : List (K × V)) (key at : K) (v : V)
      → lookup at (insert key v m) ≡ (if e.beq key at then some v else lookup at m)
  unfolding insert lookup
  lookup-insert [] key at v = refl
  lookup-insert ((i, w) ∷ m) key at v =
      ground (arith, e.beq_iff i key, e.beq_iff i at, e.beq_iff key at, lookup-insert m key at v)

  pub lookup-remove :
      (m : List (K × V)) (key at : K)
      → lookup at (remove key m) ≡ (if e.beq key at then none else lookup at m)
  unfolding remove lookup
  lookup-remove [] key at = ground arith
  lookup-remove ((i, w) ∷ m) key at =
      ground (arith, e.beq_iff i key, e.beq_iff i at, e.beq_iff key at, lookup-remove m key at)

-- m[k] of a map of strings: the empty string where the key is missing.
unfoldable pub index : List (Bytes × Bytes) → Bytes → Bytes
unfolding lookup
index m k = elim (lookup k m) [ none ↦ [] | some v ↦ v ]
