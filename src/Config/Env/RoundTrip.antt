-- ===== src/Config/Env/RoundTrip.antt =====
-- A variable that holds the print of a value sets the field to that value (config/config.go).
use opendevops_codo_golang_s.Go.Text.Visible.{IsVisible, trim_space-IsVisible}
use opendevops_codo_golang_s.Config.Env.{
  set_field, assign, convert_all, set_slice_field, store_scalar, assign_slice, store_slice,
}
use opendevops_codo_golang_s.Go.Text.{Lacks, join, split-join, split}
use opendevops_codo_golang_s.Go.Number.Decimal.{
  parse_int-itoa, parse_uint-format_uint, IsDigit, format_uint-eq-cons, format_uint-IsDigit,
}
use opendevops_codo_golang_s.Go.Number.{
  parse_bool, to_signed, to_unsigned, ℤ, format_uint, itoa, pos, negsuc,
}
use opendevops_codo_golang_s.Common.{
  Bytes, Bool, ℕ, ◌≡◌, arith, utf8, [], true, ◌<◌, false, All, refl, All-imp, ◌∷◌, ◌≤◌, List, ◌≢◌,
  map, suc,
}
use opendevops_codo_golang_s.Config.Value.{
  Class, Platform, Scalar, Kind, class, Site, nat, ok, truth, num, flt, str, opaque, of_field,
  of_slice,
}
use opendevops_codo_golang_s.Config.Env.Range.{Fits}
use opendevops_codo_golang_s.Config.Env.Codec.{convert}

-- How a number or a truth value is written; the other scalars have no print here.
abbrev pub print : {F : Type 0} → Scalar F → Bytes
print (num z) = itoa z
print (nat n) = format_uint n
print (truth true) = utf8 "true"
print (truth false) = utf8 "false"
print _ = []

abbrev pub HasPrint : {F : Type 0} → Scalar F → Type 0
HasPrint (num z) = Unit
HasPrint (nat n) = Unit
HasPrint (truth b) = Unit
HasPrint _ = ⊥

print-eq-cons : {F : Type 0} (v : Scalar F) → HasPrint v → (c : ℕ) × (s : Bytes) × (print v ≡ c ∷ s)
unfolding itoa
print-eq-cons (num (pos n)) p = format_uint-eq-cons n
print-eq-cons (num (negsuc n)) p = (b'-', format_uint (suc n), refl)
print-eq-cons (nat n) p = format_uint-eq-cons n
print-eq-cons (truth true) p = (b't', utf8 "rue", refl)
print-eq-cons (truth false) p = (b'f', utf8 "alse", refl)
print-eq-cons (str s) p = absurd p
print-eq-cons (flt f) p = absurd p
print-eq-cons opaque p = absurd p

-- The characters of a print: visible, and no comma.
abbrev IsPlain : ℕ → Type 0
IsPlain c = (b'-' ≤ c) × (c < 127)

format_uint-IsPlain : (n : ℕ) → All IsPlain (format_uint n)
format_uint-IsPlain n =
    All-imp IsDigit IsPlain (λ c d. omega arith) (format_uint n) (format_uint-IsDigit n)

print-IsPlain : {F : Type 0} (v : Scalar F) → All IsPlain (print v)
unfolding itoa
print-IsPlain (num (pos n)) = format_uint-IsPlain n
print-IsPlain (num (negsuc n)) = (omega arith, format_uint-IsPlain (suc n))
print-IsPlain (nat n) = format_uint-IsPlain n
print-IsPlain (truth true) = omega arith
print-IsPlain (truth false) = omega arith
print-IsPlain (str s) = tt
print-IsPlain (flt f) = tt
print-IsPlain opaque = tt

print-Lacks : {F : Type 0} (v : Scalar F) → Lacks b',' (print v)
print-Lacks v = All-imp IsPlain (λ c. c ≢ b',') (λ c h. omega arith) (print v) (print-IsPlain v)

print-IsVisible : {F : Type 0} (v : Scalar F) → All IsVisible (print v)
print-IsVisible v = All-imp IsPlain IsVisible (λ c h. omega arith) (print v) (print-IsPlain v)

module _ {F : Type 0} (os : Platform F) where
  convert_signed :
      (k : Kind) (site : Site) (key : Bytes) (z : ℤ)
      → Fits {F = F} (class k) (num z)
      → convert os (class k) site key (itoa z) ≡ ok (num z)
  unfolding convert class to_signed to_unsigned
  convert_signed Kind.int site key z h = ground (arith, parse_int-itoa z)
  convert_signed k site key z h = ground (arith, parse_int-itoa z)

  convert_unsigned :
      (k : Kind) (site : Site) (key : Bytes) (n : ℕ)
      → Fits {F = F} (class k) (nat n)
      → convert os (class k) site key (format_uint n) ≡ ok (nat n)
  unfolding convert class
  convert_unsigned Kind.uint site key n h = ground (arith, parse_uint-format_uint 64 n)
  convert_unsigned k site key n h = ground (arith, parse_uint-format_uint 64 n)

  convert_truth :
      (k : Kind) (site : Site) (key : Bytes) (b : Bool)
      → Fits {F = F} (class k) (truth b)
      → convert os (class k) site key (print {F = F} (truth b)) ≡ ok (truth b)
  unfolding convert class parse_bool
  convert_truth Kind.bool site key true h = refl
  convert_truth Kind.bool site key false h = refl
  convert_truth k site key b h = absurd h

  convert-print :
      (k : Kind) (site : Site) (key : Bytes) (v : Scalar F)
      → Fits (class k) v
      → HasPrint v
      → convert os (class k) site key (print v) ≡ ok v
  convert-print k site key (num z) h p = convert_signed k site key z h
  convert-print k site key (nat n) h p = convert_unsigned k site key n h
  convert-print k site key (truth b) h p = convert_truth k site key b h
  convert-print k site key (str s) h p = absurd p
  convert-print k site key (flt f) h p = absurd p
  convert-print k site key opaque h p = absurd p

  assign-cons :
      (k : Kind) (old v : Scalar F) (key : Bytes) (c : ℕ) (s : Bytes)
      → Fits (class k) v
      → HasPrint v
      → assign os (class k) old key (c ∷ s)
        ≡ store_scalar old (convert os (class k) of_field key (c ∷ s))
  unfolding assign class
  assign-cons Kind.string old (num z) key c s h p = absurd h
  assign-cons Kind.string old (nat n) key c s h p = absurd h
  assign-cons Kind.string old (truth b) key c s h p = absurd h
  assign-cons Kind.string old v key c s h p = absurd p
  assign-cons k old v key c s h p = refl

  assign-print :
      (k : Kind) (old v : Scalar F) (key : Bytes)
      → Fits (class k) v
      → HasPrint v
      → assign os (class k) old key (print v) ≡ (v, ok true)
  assign-print k old v key h p =
      let (c, s, e) = print-eq-cons v p in
      rw (e, assign-cons k old v key c s h p, ← e, convert-print k of_field key v h p)

  -- A variable that holds the print of a number or truth value of the field's type sets the field to
  -- that value, whatever it held before.
  pub set_field-print :
      (k : Kind) (old v : Scalar F) (key : Bytes)
      → Fits (class k) v
      → HasPrint v
      → os.getenv key ≡ print v
      → set_field os k old key ≡ (v, ok true)
  unfolding set_field
  set_field-print k old v key h p e = rw e (assign-print k old v key h p)

  convert_all-print :
      (k : Kind) (key : Bytes) (vs : List (Scalar F))
      → All (Fits (class k)) vs
      → All HasPrint vs
      → convert_all os (class k) key (map print vs) ≡ ok vs
  unfolding convert_all
  convert_all-print k key [] h p = refl
  convert_all-print k key (v ∷ vs) (hv, hvs) (pv, pvs) = rw (
    trim_space-IsVisible os.unicode (print v) (print-IsVisible v),
    convert-print k of_slice key v hv pv,
    convert_all-print k key vs hvs pvs,
  )

  assign_slice-cons :
      (cls : Class) (old : List (Scalar F)) (key s : Bytes)
      → s ≢ []
      → assign_slice os cls old key s ≡ store_slice old (convert_all os cls key (split b',' s))
  unfolding assign_slice
  assign_slice-cons cls old key [] h = absurd (h refl)
  assign_slice-cons cls old key (c ∷ s) h = refl

  join-print-ne-nil :
      (v : Scalar F) (vs : List (Scalar F)) → HasPrint v → join b',' (map print (v ∷ vs)) ≢ []
  unfolding join
  join-print-ne-nil v [] p = let (c, s, e) = print-eq-cons v p in cc
  join-print-ne-nil v (w ∷ vs) p = let (c, s, e) = print-eq-cons v p in rw e (cc)

  map-print-Lacks : (vs : List (Scalar F)) → All (Lacks b',') (map print vs)
  map-print-Lacks [] = tt
  map-print-Lacks (v ∷ vs) = (print-Lacks v, map-print-Lacks vs)

  -- A variable that holds a list of such prints, joined by commas, sets a slice field to the values, for a
  -- list with at least one element.
  pub set_slice_field-print :
      (k : Kind) (old : List (Scalar F)) (v : Scalar F) (vs : List (Scalar F)) (key : Bytes)
      → All (Fits (class k)) (v ∷ vs)
      → All HasPrint (v ∷ vs)
      → os.getenv key ≡ join b',' (map print (v ∷ vs))
      → set_slice_field os k old key ≡ (v ∷ vs, ok false)
  unfolding set_slice_field
  set_slice_field-print k old v vs key h p e = rw (
    e,
    assign_slice-cons (class k) old key (join b',' (map print (v ∷ vs)))
        (join-print-ne-nil v vs p.0),
    split-join b',' (print v) (map print vs) (print-Lacks v) (map-print-Lacks vs),
    convert_all-print k key (v ∷ vs) h p,
  )
