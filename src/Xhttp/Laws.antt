-- ===== src/Xhttp/Laws.antt =====
-- What strLimit and ParseProxy of client/xhttp/client.go return.
use opendevops_codo_golang_s.Xhttp.{parse_proxy, str_limit, ProxyLib, first_try, retried}
use opendevops_codo_golang_s.Common.{
  ℕ, Bytes, List, length, ◌≤◌, take, ◌<◌, ◌∷◌, ◌≡◌, arith, inr, ◌⊎◌, refl, ◌++◌, ◌↔◌, [], utf8, ◌+◌,
  Bool-cases, ltb, inl, length-append,
}

length-take : {A : Type 0} (n : ℕ) (xs : List A) → n ≤ length xs → length (take n xs) ≡ n
length-take ℕ.zero xs h = refl
length-take (ℕ.suc n) [] h = absurd (omega arith)
length-take (ℕ.suc n) (x ∷ xs) h = omega (arith, length-take n xs (omega arith))

-- The result of strLimit is the text itself where it is shorter than the limit; from the limit on,
-- also at the limit itself, it is the limit's bytes of the text and the suffix, and has their
-- length.
str_limit-length :
    (str suffix : Bytes) (n : ℕ)
    → (length str < n × str_limit str n suffix ≡ str)
      ⊎ (n ≤ length str
          × str_limit str n suffix ≡ take n str ++ suffix
          × length (str_limit str n suffix) ≡ n + length suffix)
unfolding str_limit
str_limit-length str suffix n = elim (Bool-cases (ltb (length str) n)) [
  | inl short ↦ inl (ground arith, rw short refl)
  | inr long ↦
      let le : n ≤ length str = ground arith in
      inr (
        le,
        rw long refl,
        rw long (omega (arith, length-append (take n str) suffix, length-take n str le)),
      )
]

retried-eq-inr :
    {U : Type 0} (second first : U ⊎ Bytes) (e : Bytes)
    → (retried second first ≡ inr e) ↔ ((first ≡ inr e) × ((e' : Bytes) × (second ≡ inr e')))
retried-eq-inr (inl u) first e = ((λ eq. cc), (λ (eq, (e', fails)). cc))
retried-eq-inr (inr e2) (inl u) e = ((λ eq. cc), (λ (eq, fails). cc))
retried-eq-inr (inr e2) (inr e1) e = ((λ eq. (cc, (e2, refl))), (λ (eq, fails). cc))

first_try-eq-inr :
    {U : Type 0} (lib : ProxyLib U) (proxy : Bytes) (first : U ⊎ Bytes) (e : Bytes)
    → (first_try lib proxy first ≡ inr e)
      ↔ ((first ≡ inr e) × ((e' : Bytes) × (lib.parse (utf8 "http://" ++ proxy) ≡ inr e')))
first_try-eq-inr lib proxy (inr e1) e =
    retried-eq-inr (lib.parse (utf8 "http://" ++ proxy)) (inr e1) e
first_try-eq-inr lib proxy (inl u) e =
    ground (arith, retried-eq-inr (lib.parse (utf8 "http://" ++ proxy)) (inl u) e)

-- ParseProxy fails on a text that is not empty exactly where neither the text nor the text behind "http://" is
-- a URL, and then with the error on the text as it was given.
parse_proxy-error :
    {U : Type 0} (lib : ProxyLib U) (c : ℕ) (s e : Bytes)
    → (parse_proxy lib (c ∷ s) ≡ inr e) ↔ (
        (lib.parse (c ∷ s) ≡ inr e)
        × ((e' : Bytes) × (lib.parse (utf8 "http://" ++ c ∷ s) ≡ inr e')))
unfolding parse_proxy
parse_proxy-error lib c s e = first_try-eq-inr lib (c ∷ s) (lib.parse (c ∷ s)) e
