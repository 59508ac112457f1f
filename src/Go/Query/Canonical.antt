-- ===== src/Go/Query/Canonical.antt =====
-- Values in the order of their keys, each key once and with at least one value: what the operations on a
-- map keep.
use opendevops_codo_golang_s.Go.Query.Order.{bytes_lt_total, bytes_lt_trans}
use opendevops_codo_golang_s.Go.Query.Escape.{IsByte}
use opendevops_codo_golang_s.Go.Query.{Values, append_value, del, set, bytes_lt}
use opendevops_codo_golang_s.Common.{
  Bytes, List, All, same, ◌++◌, ◌∷◌, Bool-cases, [], ◌≡◌, ◌≢◌, false, inl, true, All-append,
  All-imp, inr, same_iff, arith, subst,
}

-- The bytes of the keys and values are bytes.
abbrev pub IsText : Bytes → Type 0
IsText = All IsByte

abbrev pub Above : Bytes → Values → Type 0
Above k = All (λ (p : Bytes × List Bytes). bytes_lt k p.0 ≡ true)

abbrev IsEntry : Bytes × List Bytes → Type 0
IsEntry p = IsText p.0 × All IsText p.1 × (p.1 ≢ [])

abbrev pub IsCanonical : Values → Type 0
IsCanonical [] = Unit
IsCanonical (p ∷ v) = IsEntry p × Above p.0 v × IsCanonical v

Above-trans : (j k : Bytes) (v : Values) → bytes_lt j k ≡ true → Above k v → Above j v
Above-trans j k v h =
    All-imp (λ (p : Bytes × List Bytes). bytes_lt k p.0 ≡ true)
      (λ (p : Bytes × List Bytes). bytes_lt j p.0 ≡ true) (λ p e. bytes_lt_trans j k p.0 h e) v

Above-append_value :
    (j k w : Bytes) (v : Values) → bytes_lt j k ≡ true → Above j v → Above j (append_value k w v)
unfolding append_value
Above-append_value j k w [] h a = (h, tt)
Above-append_value j k w ((i, ws) ∷ v) h (hi, a) = elim (Bool-cases (same i k)) [
  | inl e ↦ rw e (hi, a)
  | inr e ↦ elim (Bool-cases (bytes_lt k i)) [
    | inl l ↦ rw (e, l) (h, (hi, a))
    | inr l ↦ rw (e, l) (hi, Above-append_value j k w v h a)
  ]
]

Above-set : (j k w : Bytes) (v : Values) → bytes_lt j k ≡ true → Above j v → Above j (set k w v)
unfolding set
Above-set j k w [] h a = (h, tt)
Above-set j k w ((i, ws) ∷ v) h (hi, a) = elim (Bool-cases (same i k)) [
  | inl e ↦ rw e (h, a)
  | inr e ↦ elim (Bool-cases (bytes_lt k i)) [
    | inl l ↦ rw (e, l) (h, (hi, a))
    | inr l ↦ rw (e, l) (hi, Above-set j k w v h a)
  ]
]

Above-del : (j k : Bytes) (v : Values) → Above j v → Above j (del k v)
unfolding del
Above-del j k [] a = tt
Above-del j k ((i, ws) ∷ v) (hi, a) = elim (Bool-cases (same i k)) [
  | inl e ↦ rw e a
  | inr e ↦ rw e (hi, Above-del j k v a)
]

-- Where neither test holds, the key comes later.
later : (i k : Bytes) → same i k ≡ false → bytes_lt k i ≡ false → bytes_lt i k ≡ true
later i k e l = bytes_lt_total k i (ground (arith, same_iff i k, same_iff k i)) l

append-ne-nil {ℓ} : {A : Type ℓ} (xs : List A) (x : A) → xs ++ x ∷ [] ≢ []
append-ne-nil [] x = λ e. cc
append-ne-nil (y ∷ xs) x = λ e. cc

pub append_value-IsCanonical :
    (k w : Bytes) (v : Values)
    → IsText k
    → IsText w
    → IsCanonical v
    → IsCanonical (append_value k w v)
unfolding append_value
append_value-IsCanonical k w [] hk hw c = ((hk, (hw, tt), (λ e. cc)), tt, tt)
append_value-IsCanonical k w ((i, ws) ∷ v) hk hw (entry, a, c) = elim (Bool-cases (same i k)) [
  | inl e ↦
      let (hi, hws, ne) = entry in
      rw e ((hi, All-append IsText ws (w ∷ []) hws (hw, tt), append-ne-nil ws w), a, c)
  | inr e ↦ elim (Bool-cases (bytes_lt k i)) [
    | inl l ↦ rw (e, l) ((hk, (hw, tt), (λ e. cc)), (l, Above-trans k i v l a), (entry, a, c))
    | inr l ↦
        rw (e, l)
          (
            entry,
            Above-append_value i k w v (later i k e l) a,
            append_value-IsCanonical k w v hk hw c,
          )
  ]
]

pub set-IsCanonical :
    (k w : Bytes) (v : Values) → IsText k → IsText w → IsCanonical v → IsCanonical (set k w v)
unfolding set
set-IsCanonical k w [] hk hw c = ((hk, (hw, tt), (λ e. cc)), tt, tt)
set-IsCanonical k w ((i, ws) ∷ v) hk hw (entry, a, c) = elim (Bool-cases (same i k)) [
  | inl e ↦
      let p : i ≡ k = (same_iff i k).0 e in
      rw e ((hk, (hw, tt), (λ e. cc)), subst (λ j. Above j v) p a, c)
  | inr e ↦ elim (Bool-cases (bytes_lt k i)) [
    | inl l ↦ rw (e, l) ((hk, (hw, tt), (λ e. cc)), (l, Above-trans k i v l a), (entry, a, c))
    | inr l ↦ rw (e, l) (entry, Above-set i k w v (later i k e l) a, set-IsCanonical k w v hk hw c)
  ]
]

pub del-IsCanonical : (k : Bytes) (v : Values) → IsCanonical v → IsCanonical (del k v)
unfolding del
del-IsCanonical k [] c = tt
del-IsCanonical k ((i, ws) ∷ v) (entry, a, c) = elim (Bool-cases (same i k)) [
  | inl e ↦ rw e c
  | inr e ↦ rw e (entry, Above-del i k v a, del-IsCanonical k v c)
]
