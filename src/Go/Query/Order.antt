-- ===== src/Go/Query/Order.antt =====
-- The order of strings is strict and total.
use opendevops_codo_golang_s.Common.{
  Bytes, same, ◌≡◌, false, true, Bool-cases, ◌∷◌, arith, inr, [], inl, refl, same_iff,
}
use opendevops_codo_golang_s.Go.Query.{bytes_lt}

bytes_lt_irrefl : (s : Bytes) → bytes_lt s s ≡ false
unfolding bytes_lt
bytes_lt_irrefl [] = refl
bytes_lt_irrefl (a ∷ s) = ground (arith, bytes_lt_irrefl s)

pub bytes_lt_trans :
    (s t u : Bytes) → bytes_lt s t ≡ true → bytes_lt t u ≡ true → bytes_lt s u ≡ true
unfolding bytes_lt
bytes_lt_trans s t [] h k = cc
bytes_lt_trans s [] (c ∷ u) h k = cc
bytes_lt_trans [] (b ∷ t) (c ∷ u) h k = refl
bytes_lt_trans (a ∷ s) (b ∷ t) (c ∷ u) h k = ground (arith, bytes_lt_trans s t u)

pub bytes_lt_total : (s t : Bytes) → same s t ≡ false → bytes_lt s t ≡ false → bytes_lt t s ≡ true
unfolding bytes_lt
bytes_lt_total [] [] h k = cc
bytes_lt_total [] (b ∷ t) h k = cc
bytes_lt_total (a ∷ s) [] h k = refl
bytes_lt_total (a ∷ s) (b ∷ t) h k = ground (arith, bytes_lt_total s t)

pub bytes_lt-ne : (s t : Bytes) → bytes_lt s t ≡ true → same s t ≡ false
bytes_lt-ne s t h = elim (Bool-cases (same s t)) [
  | inr e ↦ e
  | inl e ↦ let p : s ≡ t = (same_iff s t).0 e in absurd (cc (bytes_lt_irrefl s))
]

pub bytes_lt_asymm : (s t : Bytes) → bytes_lt s t ≡ true → bytes_lt t s ≡ false
bytes_lt_asymm s t h = elim (Bool-cases (bytes_lt t s)) [
  | inr e ↦ e
  | inl e ↦ absurd (cc (bytes_lt_trans s t s h e, bytes_lt_irrefl s))
]
