-- ===== src/Config/Env/Range.antt =====
-- The values that parseEnv stores fit the types of their fields (config/config.go).
use opendevops_codo_golang_s.Common.{
  subst, ◌^◌, ◌<◌, ◌≡◌, refl, Bool, true, false, List, [], ◌∷◌, arith, Bytes, All,
}
use opendevops_codo_golang_s.Go.Text.{split, trim_space}
use opendevops_codo_golang_s.Go.Number.{InRange, to_signed, to_unsigned}
use opendevops_codo_golang_s.Config.Value.{
  Kind, Class, text, boolean, opaque_class, float, signed, unsigned, class, Scalar, str, num, nat,
  flt, truth, opaque, Value, scalar, slice, struct, nil_ptr, ptr, Fields, end, field, Site,
  of_slice, to, Result, ok, err, ◌>>=◌, Platform, first_step,
}
use opendevops_codo_golang_s.Config.Env.{
  env_key_prefix, env_key, assign, convert_all, set_field, set_slice_field, parse_value,
  parse_fields, load_env, assign_slice, continue, of_field, store_new, store_slice, store_scalar,
}
use opendevops_codo_golang_s.Config.Env.Codec.{convert}

-- A scalar has the form and the range of its class.
abbrev pub Fits : {F : Type 0} → Class → Scalar F → Type 0
Fits text (str s) = Unit
Fits boolean (truth b) = Unit
Fits (float bits) (flt f) = Unit
Fits (signed bits) (num z) = InRange bits z
Fits (unsigned bits) (nat n) = n < 2 ^ bits
Fits opaque_class opaque = Unit
Fits _ _ = ⊥

abbrev mutual
  WellTyped : {F : Type 0} → Value F → Type 0
  WellTyped (scalar k s) = Fits (class k) s
  WellTyped (slice k ss) = All (Fits (class k)) ss
  WellTyped (struct fs) = AllWellTyped fs
  WellTyped (nil_ptr v) = WellTyped v
  WellTyped (ptr v) = WellTyped v

  pub AllWellTyped : {F : Type 0} → Fields F → Type 0
  AllWellTyped end = Unit
  AllWellTyped (field tags v fs) = WellTyped v × AllWellTyped fs

store_new-WellTyped :
    {F : Type 0} (old : Fields F) (r : Fields F × Result Bool)
    → AllWellTyped old
    → AllWellTyped r.0
    → WellTyped (store_new old r).0
store_new-WellTyped old (fs, ok true) h h' = h'
store_new-WellTyped old (fs, ok false) h h' = h
store_new-WellTyped old (fs, err e) h h' = h

continue_WellTyped :
    {F : Type 0} (r : Result Bool) (fs : Fields F) (rest : Fields F × Result Bool)
    → AllWellTyped fs
    → AllWellTyped rest.0
    → AllWellTyped (continue r fs rest).0
continue_WellTyped (ok a) fs rest h h' = h'
continue_WellTyped (err e) fs rest h h' = h

module _ {F : Type 0} (os : Platform F) where
  convert-Fits :
      (k : Kind) (site : Site) (key s : Bytes) (v : Scalar F)
      → convert os (class k) site key s ≡ ok v
      → Fits (class k) v
  unfolding convert class to_signed to_unsigned
  convert-Fits Kind.string site key s v h = ground arith
  convert-Fits _ site key s v h = ground arith

  scalar-Fits :
      (k : Kind) (old : Scalar F) (r : Result (Scalar F))
      → Fits (class k) old
      → ((v : Scalar F) → r ≡ ok v → Fits (class k) v)
      → Fits (class k) (store_scalar old r).0
  scalar-Fits k old (ok v) h fits = fits v refl
  scalar-Fits k old (err e) h fits = h

  field-Fits :
      (k : Kind) (old : Scalar F) (key s : Bytes)
      → Fits (class k) old
      → Fits (class k) (assign os (class k) old key s).0
  unfolding assign class
  field-Fits Kind.string old key [] h = h
  field-Fits Kind.string old key (c ∷ s) h = tt
  field-Fits k old key [] h = h
  field-Fits k old key (c ∷ s) h =
      scalar-Fits k old (convert os (class k) of_field key (c ∷ s)) h
        (convert-Fits k of_field key (c ∷ s))

  All-fit :
      (k : Kind) (key : Bytes) (ss : List Bytes) (vs : List (Scalar F))
      → convert_all os (class k) key ss ≡ ok vs
      → All (Fits (class k)) vs
  unfolding convert_all
  All-fit k key [] vs h = let e : vs ≡ [] = cc in rw e tt
  All-fit k key (s ∷ ss) vs h =
      let (v, hv, more) =
        first_step (λ v. convert_all os (class k) key ss >>= λ vs. ok (v ∷ vs))
          (convert os (class k) of_slice key (trim_space os.unicode s)) h in
      let (ws, hws, last) = first_step (λ vs. ok (v ∷ vs)) (convert_all os (class k) key ss) more in
      let e : vs ≡ v ∷ ws = cc in
      rw e (convert-Fits k of_slice key (trim_space os.unicode s) v hv, All-fit k key ss ws hws)

  stored-Fits :
      (k : Kind) (old : List (Scalar F)) (r : Result (List (Scalar F)))
      → All (Fits (class k)) old
      → ((vs : List (Scalar F)) → r ≡ ok vs → All (Fits (class k)) vs)
      → All (Fits (class k)) (store_slice old r).0
  stored-Fits k old (ok vs) h fits = fits vs refl
  stored-Fits k old (err e) h fits = h

  assigned-Fits :
      (k : Kind) (old : List (Scalar F)) (key s : Bytes)
      → All (Fits (class k)) old
      → All (Fits (class k)) (assign_slice os (class k) old key s).0
  unfolding assign_slice
  assigned-Fits k old key [] h = h
  assigned-Fits k old key (c ∷ s) h =
      stored-Fits k old (convert_all os (class k) key (split b',' (c ∷ s))) h
        (All-fit k key (split b',' (c ∷ s)))

  slice-Fits :
      (k : Kind) (old : List (Scalar F)) (key : Bytes)
      → All (Fits (class k)) old
      → All (Fits (class k)) (set_slice_field os k old key).0
  unfolding set_slice_field
  slice-Fits k old key h = assigned-Fits k old key (os.getenv key) h

  mutual
    unfolding parse_value parse_fields set_field

    value_WellTyped :
        (prefix key : Bytes) (v : Value F) → WellTyped v → WellTyped (parse_value os prefix key v).0
    value_WellTyped prefix key (scalar k s) h = field-Fits k s key (os.getenv key) h
    value_WellTyped prefix key (slice k ss) h = slice-Fits k ss key h
    value_WellTyped prefix key (struct fs) h = fields_WellTyped prefix fs h
    value_WellTyped prefix key (ptr (scalar k s)) h = field-Fits k s key (os.getenv key) h
    value_WellTyped prefix key (ptr (slice k ss)) h = slice-Fits k ss key h
    value_WellTyped prefix key (ptr (struct fs)) h = fields_WellTyped prefix fs h
    value_WellTyped prefix key (ptr p) h = h
    value_WellTyped prefix key (nil_ptr (scalar k s)) h = h
    value_WellTyped prefix key (nil_ptr (slice k ss)) h = h
    value_WellTyped prefix key (nil_ptr (struct fs)) h =
        store_new-WellTyped fs (parse_fields os prefix fs) h (fields_WellTyped prefix fs h)
    value_WellTyped prefix key (nil_ptr p) h = h

    fields_WellTyped :
        (prefix : Bytes) (fs : Fields F)
        → AllWellTyped fs
        → AllWellTyped (parse_fields os prefix fs).0
    fields_WellTyped prefix end h = tt
    fields_WellTyped prefix (field tags v fs) (hv, hfs) = (
      value_WellTyped (env_key_prefix os prefix tags) (env_key os prefix tags) v hv,
      continue_WellTyped
          (parse_value os (env_key_prefix os prefix tags) (env_key os prefix tags) v).1 fs
          (parse_fields os prefix fs) hfs (fields_WellTyped prefix fs hfs),
    )

  -- LoadEnv keeps every value within the type of its field, whatever the environment holds, on the
  -- error paths too.
  pub load_env-AllWellTyped :
      (prefix : Bytes) (fs fs' : Fields F) (r : Result Bool)
      → AllWellTyped fs
      → load_env os prefix (to fs) ≡ (to fs', r)
      → AllWellTyped fs'
  unfolding load_env
  load_env-AllWellTyped prefix fs fs' r h e =
      let same_fields : (parse_fields os prefix fs).0 ≡ fs' = cc in
      subst AllWellTyped same_fields (fields_WellTyped prefix fs h)
