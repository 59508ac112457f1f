-- ===== src/Go/Query/Keys.antt =====
-- What Get, Set and Del do to each other.
use opendevops_codo_golang_s.Go.Query.Order.{bytes_lt-ne}
use opendevops_codo_golang_s.Go.Query.Canonical.{Above, IsCanonical}
use opendevops_codo_golang_s.Go.Query.{del, get, set, Values, bytes_lt}
use opendevops_codo_golang_s.Common.{
  ◌∷◌, Bytes, All, same, ◌≡◌, All-imp, List, false, same_refl, true, arith, same_iff, Bool-cases,
  inl, inr, subst, [], ap, sym, if◌then◌else◌, refl,
}

-- No entry has the key.
abbrev pub NoKey : Bytes → Values → Type 0
NoKey k = All (λ (p : Bytes × List Bytes). same p.0 k ≡ false)

pub get-set_self : (k w : Bytes) (v : Values) → get k (set k w v) ≡ w
unfolding get set
get-set_self k w [] = rw (same_refl k) refl
get-set_self k w ((j, ws) ∷ v) = elim (Bool-cases (same j k)) [
  | inl e ↦ rw (e, same_refl k) refl
  | inr e ↦ elim (Bool-cases (bytes_lt k j)) [
    | inl l ↦ rw (e, l, same_refl k) refl
    | inr l ↦ rw (e, l, e) (get-set_self k w v)
  ]
]

pub get-set_other : (i k w : Bytes) (v : Values) → same k i ≡ false → get i (set k w v) ≡ get i v
unfolding get set
get-set_other i k w [] h = rw h refl
get-set_other i k w ((j, ws) ∷ v) h = elim (Bool-cases (same j k)) [
  | inl e ↦
      let p : j ≡ k = (same_iff j k).0 e in
      let h' : same j i ≡ false = subst (λ x. same x i ≡ false) (sym p) h in rw (e, h, h') refl
  | inr e ↦ elim (Bool-cases (bytes_lt k j)) [
    | inl l ↦ rw (e, l, h) refl
    | inr l ↦
        rw (e, l)
          (ap (λ t. if same j i then elim ws [ [] ↦ [] | w ∷ _ ↦ w ] else t)
            (get-set_other i k w v h))
  ]
]

Above-NoKey : (k : Bytes) (v : Values) → Above k v → NoKey k v
Above-NoKey k v =
    All-imp (λ (p : Bytes × List Bytes). bytes_lt k p.0 ≡ true)
      (λ (p : Bytes × List Bytes). same p.0 k ≡ false)
      (λ p h. ground (arith, bytes_lt-ne k p.0 h, same_iff k p.0, same_iff p.0 k)) v

-- Del removes the key from values that hold it once.
pub del-NoKey : (k : Bytes) (v : Values) → IsCanonical v → NoKey k (del k v)
unfolding del
del-NoKey k [] c = tt
del-NoKey k ((j, ws) ∷ v) (entry, a, c) = elim (Bool-cases (same j k)) [
  | inl e ↦
      let p : j ≡ k = (same_iff j k).0 e in rw e (subst (λ x. NoKey x v) p (Above-NoKey j v a))
  | inr e ↦ rw e (e, del-NoKey k v c)
]

pub set-NoKey : (i k w : Bytes) (v : Values) → same k i ≡ false → NoKey i v → NoKey i (set k w v)
unfolding set
set-NoKey i k w [] h n = (h, tt)
set-NoKey i k w ((j, ws) ∷ v) h (nj, n) = elim (Bool-cases (same j k)) [
  | inl e ↦ rw e (h, n)
  | inr e ↦ elim (Bool-cases (bytes_lt k j)) [
    | inl l ↦ rw (e, l) (h, (nj, n))
    | inr l ↦ rw (e, l) (nj, set-NoKey i k w v h n)
  ]
]

-- Del undoes Set on values that did not hold the key.
pub del-set : (k w : Bytes) (v : Values) → NoKey k v → del k (set k w v) ≡ v
unfolding del set
del-set k w [] n = rw (same_refl k) refl
del-set k w ((j, ws) ∷ v) (nj, n) = elim (Bool-cases (bytes_lt k j)) [
  | inl l ↦ rw (nj, l, same_refl k) refl
  | inr l ↦ rw (nj, l, nj) (ap (λ t. (j, ws) ∷ t) (del-set k w v n))
]
