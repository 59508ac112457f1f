-- ===== src/Config/Flags/Paths.antt =====
-- Each flag that parseFlagStruct and parsePFlagStruct of config/config.go register stands for the field that
-- its path leads to.
use opendevops_codo_golang_s.Config.Flags.Pflag.{parse_pflag_struct}
use opendevops_codo_golang_s.Config.Flags.Either.{
  either_register, either_register_field, either_walk_value, either_walk_fields,
  parse_flag_struct-to, parse_pflag_struct-to,
}
use opendevops_codo_golang_s.Config.Flags.{
  Flag, Registered, registered, refused, panicked, after, supported, parse_flag_struct,
}
use opendevops_codo_golang_s.Config.Value.{
  Value, Tags, struct, Fields, field, scalar, slice, end, nil_ptr, ptr, to,
}
use opendevops_codo_golang_s.Common.{
  ◌∷◌, List, ℕ, All, Bool, Option, ◌≡◌, some, Bool-cases, ◌++◌, Bytes, none, subst, [], arith, inl,
  All-append, append-nil, inr, suc, zero, ◌+◌, sym, append_assoc, false, ap, true,
}
use opendevops_codo_golang_s.Config.Flags.Same.{collect}

mutual
  pub value_at : {F : Type 0} → List ℕ → Value F → Option (Value F)
  value_at [] v = some v
  value_at (i ∷ path) (struct fs) = field_at i path fs
  value_at (i ∷ path) v = none

  field_at : {F : Type 0} → ℕ → List ℕ → Fields F → Option (Value F)
  field_at i path end = none
  field_at zero path (field tags v fs) = value_at path v
  field_at (suc i) path (field tags v fs) = field_at i path fs

module _ {F : Type 0} (root : Value F) where
  -- The default of a flag is the value of its field.
  abbrev IsPlaced : Flag F → Type 0
  IsPlaced f = value_at f.path root ≡ some f.default

  abbrev pub AllPlaced : Registered (List (Flag F)) → Type 0
  AllPlaced (registered fs) = All IsPlaced fs
  AllPlaced (refused fs e) = All IsPlaced fs
  AllPlaced panicked = Unit

  after-AllPlaced :
      (r : Registered (List (Flag F))) (k : List (Flag F) → Registered (List (Flag F)))
      → AllPlaced r
      → ((fs : List (Flag F)) → All IsPlaced fs → AllPlaced (k fs))
      → AllPlaced (after r k)
  after-AllPlaced (registered fs) k h hk = hk fs h
  after-AllPlaced (refused fs e) k h hk = h
  after-AllPlaced panicked k h hk = tt

  register-AllPlaced :
      (with_short : Bool) (tags : Tags) (v : Value F) (path : List ℕ) (fs : List (Flag F))
      → value_at path root ≡ some v
      → All IsPlaced fs
      → AllPlaced (either_register with_short collect tags v path fs)
  unfolding either_register
  register-AllPlaced with_short tags v path fs at_path h = elim (Bool-cases (supported v)) [
    | inl e ↦ rw e (All-append IsPlaced fs _ h (at_path, tt))
    | inr e ↦ rw e h
  ]

  register_field-AllPlaced :
      (with_short : Bool) (tags : Tags) (v : Value F) (path : List ℕ) (fs : List (Flag F))
      → ((q : List ℕ) → value_at (path ++ q) root ≡ value_at q v)
      → All IsPlaced fs
      → AllPlaced (either_register_field with_short collect tags v path fs)
  unfolding either_register_field value_at
  register_field-AllPlaced with_short tags v path fs at_path h =
      let here : value_at path root ≡ some v =
        subst (λ p. value_at p root ≡ some v) (append-nil path) (at_path []) in
      by_flag tags.flag _ (register-AllPlaced with_short tags v path fs here h)
    where
      by_flag :
          (flag : Bytes) (r : Registered (List (Flag F)))
          → AllPlaced r
          → AllPlaced (elim flag [ [] ↦ registered fs | _ ↦ r ])
      by_flag [] r hr = h
      by_flag (c ∷ s) r hr = hr

  mutual
    unfolding either_walk_value either_walk_fields value_at field_at

    value-AllPlaced :
        (with_short : Bool) (tags : Tags) (v : Value F) (path : List ℕ) (fs : List (Flag F))
        → ((q : List ℕ) → value_at (path ++ q) root ≡ value_at q v)
        → All IsPlaced fs
        → AllPlaced (either_walk_value with_short collect tags v path fs)
    value-AllPlaced w tags (struct gs) path fs at_path h =
        fields-AllPlaced w gs path 0 fs
          (λ j n q e.
            subst (λ m. value_at (path ++ m ∷ q) root ≡ field_at j q gs) (omega (arith, e))
              (at_path (j ∷ q)))
          h
    value-AllPlaced w tags (scalar k s) path fs at_path h =
        register_field-AllPlaced w tags (scalar k s) path fs at_path h
    value-AllPlaced w tags (slice k ss) path fs at_path h =
        register_field-AllPlaced w tags (slice k ss) path fs at_path h
    value-AllPlaced w tags (nil_ptr v) path fs at_path h =
        register_field-AllPlaced w tags (nil_ptr v) path fs at_path h
    value-AllPlaced w tags (ptr v) path fs at_path h =
        register_field-AllPlaced w tags (ptr v) path fs at_path h

    fields-AllPlaced :
        (with_short : Bool) (gs : Fields F) (path : List ℕ) (i : ℕ) (fs : List (Flag F))
        → ((j n : ℕ) (q : List ℕ) → n ≡ i + j → value_at (path ++ n ∷ q) root ≡ field_at j q gs)
        → All IsPlaced fs
        → AllPlaced (either_walk_fields with_short collect gs path i fs)
    fields-AllPlaced w end path i fs at_path h = h
    fields-AllPlaced w (field tags v gs) path i fs at_path h =
        after-AllPlaced (either_walk_value w collect tags v (path ++ i ∷ []) fs)
          (λ s. either_walk_fields w collect gs path (i + 1) s)
          (value-AllPlaced w tags v (path ++ i ∷ []) fs
            (λ q.
              subst (λ p. value_at p root ≡ value_at q v) (sym (append_assoc path (i ∷ []) q))
                (at_path 0 i q (omega arith)))
            h)
          (λ s hs.
            fields-AllPlaced w gs path (i + 1) s (λ j n q e. at_path (suc j) n q (omega (arith, e)))
              hs)

-- Every flag that parseFlagStruct or parsePFlagStruct registers, also before an error, stands for one field, however
-- deep in structs: its default is the value that this field holds, so that the registration changes no field.
pub parse_flag_struct-AllPlaced :
    {F : Type 0} (gs : Fields F)
    → AllPlaced (struct gs) (parse_flag_struct collect (to gs) [])
      × AllPlaced (struct gs) (parse_pflag_struct collect (to gs) [])
unfolding value_at
parse_flag_struct-AllPlaced gs = (
  subst (AllPlaced (struct gs)) (sym (parse_flag_struct-to collect gs [])) (
      fields-AllPlaced (struct gs) false gs [] 0 []
        (λ j n q e. ap (λ m. field_at m q gs) (omega (arith, e))) tt),
  subst (AllPlaced (struct gs)) (sym (parse_pflag_struct-to collect gs [])) (
      fields-AllPlaced (struct gs) true gs [] 0 []
        (λ j n q e. ap (λ m. field_at m q gs) (omega (arith, e))) tt),
)
