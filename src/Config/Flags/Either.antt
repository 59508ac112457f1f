-- ===== src/Config/Flags/Either.antt =====
-- What parseFlagStruct and parsePFlagStruct of config/config.go have in common: one walk, with or without the
-- shorthand, to which both of them are equal.
use opendevops_codo_golang_s.Go.Text.{split}
use opendevops_codo_golang_s.Common.{
  ◌∷◌, Bool, Bytes, List, Option, ◌≡◌, arith, false, refl, true, ℕ, [], ap, if◌then◌else◌, ◌++◌,
  ◌+◌,
}
use opendevops_codo_golang_s.Config.Flags.{
  Flag, Registered, registered, refused, panicked, after, added, refusal, register, register_field,
  walk_value, walk_fields, flag_names, supported, has_var, name_parts, parse_flag_struct,
}
use opendevops_codo_golang_s.Config.Flags.Pflag.{
  p_register, p_register_field, p_walk_value, p_walk_fields, p_flag_names, p_supported, p_has_var,
  p_name_parts, parse_pflag_struct,
}
use opendevops_codo_golang_s.Config.Value.{
  Kind, Value, Tags, Fields, end, field, to, struct, scalar, slice, nil_ptr, ptr,
}

module _ {F S : Type 0} (with_short : Bool) (add : S → Flag F → Option S) where
  -- The switch on the kind of a field that has a flag tag.
  unfoldable pub either_register : Tags → Value F → List ℕ → S → Registered S
  either_register tags v path s =
      let (name, short) = flag_names tags.flag in
      if supported v
      then added (
          add s (record {
            name = name;
            short = if with_short then short else [];
            usage = tags.usage;
            path = path;
            default = v;
          }))
      else refused s (refusal v)

  -- A field that is no struct: skipped without a flag tag.
  unfoldable pub either_register_field : Tags → Value F → List ℕ → S → Registered S
  either_register_field tags v path s = elim tags.flag [
    | [] ↦ registered s
    | _ ↦ either_register tags v path s
  ]

  unfoldable mutual
    pub either_walk_value : Tags → Value F → List ℕ → S → Registered S
    either_walk_value tags (struct fs) path s = either_walk_fields fs path 0 s
    either_walk_value tags v path s = either_register_field tags v path s

    pub either_walk_fields : Fields F → List ℕ → ℕ → S → Registered S
    either_walk_fields end path i s = registered s
    either_walk_fields (field tags v fs) path i s =
        after (either_walk_value tags v (path ++ i ∷ []) s)
          (λ s'. either_walk_fields fs path (i + 1) s')

after-ext :
    {S : Type 0} (r : Registered S) (f g : S → Registered S)
    → ((s : S) → f s ≡ g s)
    → after r f ≡ after r g
after-ext (registered s) f g h = h s
after-ext (refused s e) f g h = refl
after-ext panicked f g h = refl

p_name_parts-eq :
    (ps : List Bytes) (name short : Bytes) → p_name_parts ps name short ≡ name_parts ps name short
unfolding p_name_parts name_parts
p_name_parts-eq [] name short = refl
p_name_parts-eq ([] ∷ ps) name short = p_name_parts-eq ps name short
p_name_parts-eq ((c ∷ []) ∷ ps) name short = p_name_parts-eq ps name (c ∷ [])
p_name_parts-eq ((c ∷ d ∷ s) ∷ ps) name short = p_name_parts-eq ps (c ∷ d ∷ s) short

p_flag_names-eq : (tag : Bytes) → p_flag_names tag ≡ flag_names tag
unfolding p_flag_names flag_names
p_flag_names-eq tag = rw (p_name_parts-eq (split b'|' tag) tag []) refl

p_has_var-eq : (k : Kind) → p_has_var k ≡ has_var k
unfolding p_has_var has_var
p_has_var-eq k = ground arith

p_supported-eq : {F : Type 0} (v : Value F) → p_supported v ≡ supported v
p_supported-eq (scalar k s) = p_has_var-eq k
p_supported-eq (slice k ss) = p_has_var-eq k
p_supported-eq (struct fs) = refl
p_supported-eq (nil_ptr v) = refl
p_supported-eq (ptr v) = refl

module _ {F S : Type 0} (add : S → Flag F → Option S) where
  p_register-eq :
      (tags : Tags) (v : Value F) (path : List ℕ) (s : S)
      → p_register add tags v path s ≡ either_register true add tags v path s
  unfolding p_register either_register
  p_register-eq tags v path s = rw (p_flag_names-eq tags.flag, p_supported-eq v) refl

  p_field-eq :
      (tags : Tags) (v : Value F) (path : List ℕ) (s : S)
      → p_register_field add tags v path s ≡ either_register_field true add tags v path s
  unfolding p_register_field either_register_field
  p_field-eq tags v path s =
      ap (λ r. elim tags.flag [ [] ↦ registered s | _ ↦ r ]) (p_register-eq tags v path s)

  field-eq :
      (tags : Tags) (v : Value F) (path : List ℕ) (s : S)
      → register_field add tags v path s ≡ either_register_field false add tags v path s
  unfolding register_field either_register_field register either_register
  field-eq tags v path s = refl

  mutual
    unfolding walk_value walk_fields either_walk_value either_walk_fields

    value-eq :
        (tags : Tags) (v : Value F) (path : List ℕ) (s : S)
        → walk_value add tags v path s ≡ either_walk_value false add tags v path s
    value-eq tags (struct fs) path s = fields-eq fs path 0 s
    value-eq tags (scalar k x) path s = field-eq tags (scalar k x) path s
    value-eq tags (slice k xs) path s = field-eq tags (slice k xs) path s
    value-eq tags (nil_ptr v) path s = field-eq tags (nil_ptr v) path s
    value-eq tags (ptr v) path s = field-eq tags (ptr v) path s

    fields-eq :
        (fs : Fields F) (path : List ℕ) (i : ℕ) (s : S)
        → walk_fields add fs path i s ≡ either_walk_fields false add fs path i s
    fields-eq end path i s = refl
    fields-eq (field tags v fs) path i s = rw (value-eq tags v (path ++ i ∷ []) s) (
        after-ext (either_walk_value false add tags v (path ++ i ∷ []) s)
          (λ s'. walk_fields add fs path (i + 1) s')
          (λ s'. either_walk_fields false add fs path (i + 1) s')
          (λ s'. fields-eq fs path (i + 1) s'))

  mutual
    unfolding p_walk_value p_walk_fields either_walk_value either_walk_fields

    p_value-eq :
        (tags : Tags) (v : Value F) (path : List ℕ) (s : S)
        → p_walk_value add tags v path s ≡ either_walk_value true add tags v path s
    p_value-eq tags (struct fs) path s = p_fields-eq fs path 0 s
    p_value-eq tags (scalar k x) path s = p_field-eq tags (scalar k x) path s
    p_value-eq tags (slice k xs) path s = p_field-eq tags (slice k xs) path s
    p_value-eq tags (nil_ptr v) path s = p_field-eq tags (nil_ptr v) path s
    p_value-eq tags (ptr v) path s = p_field-eq tags (ptr v) path s

    p_fields-eq :
        (fs : Fields F) (path : List ℕ) (i : ℕ) (s : S)
        → p_walk_fields add fs path i s ≡ either_walk_fields true add fs path i s
    p_fields-eq end path i s = refl
    p_fields-eq (field tags v fs) path i s = rw (p_value-eq tags v (path ++ i ∷ []) s) (
        after-ext (either_walk_value true add tags v (path ++ i ∷ []) s)
          (λ s'. p_walk_fields add fs path (i + 1) s')
          (λ s'. either_walk_fields true add fs path (i + 1) s')
          (λ s'. p_fields-eq fs path (i + 1) s'))

  pub parse_flag_struct-to :
      (fs : Fields F) (s : S)
      → parse_flag_struct add (to fs) s ≡ either_walk_fields false add fs [] 0 s
  unfolding parse_flag_struct
  parse_flag_struct-to fs s = fields-eq fs [] 0 s

  pub parse_pflag_struct-to :
      (fs : Fields F) (s : S)
      → parse_pflag_struct add (to fs) s ≡ either_walk_fields true add fs [] 0 s
  unfolding parse_pflag_struct
  parse_pflag_struct-to fs s = p_fields-eq fs [] 0 s
