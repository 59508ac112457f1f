-- ===== src/Config/Flags/Names.antt =====
-- Each tagged field of the struct itself gets its flag from parseFlagStruct and parsePFlagStruct of
-- config/config.go.
use opendevops_codo_golang_s.Config.Flags.Tag.{IsPart, IsShort, flag_names-join, not_empty}
use opendevops_codo_golang_s.Config.Flags.Pflag.{parse_pflag_struct}
use opendevops_codo_golang_s.Go.Text.{join}
use opendevops_codo_golang_s.Config.Flags.Either.{
  either_register, either_register_field, either_walk_fields, either_walk_value,
  parse_flag_struct-to, parse_pflag_struct-to,
}
use opendevops_codo_golang_s.Config.Value.{
  Value, struct, Tags, scalar, slice, nil_ptr, ptr, Fields, field, end, to,
}
use opendevops_codo_golang_s.Common.{
  ◌∷◌, Bytes, List, ℕ, Bool, ◌++◌, ◌≡◌, [], inl, ◌⊎◌, Bool-cases, inr, ◌+◌, some, ◌≢◌, refl, ◌∙◌,
  ap, false, arith, subst, true, sym, suc, zero, All, length, ◌<◌,
}
use opendevops_codo_golang_s.Config.Flags.{
  Flag, Registered, registered, refused, panicked, after, supported, parse_flag_struct, flag_names,
}
use opendevops_codo_golang_s.Config.Flags.Same.{collect}
use opendevops_codo_golang_s.Config.Load.Priority.{nth}

-- A value that is no struct.
abbrev IsLeaf : {F : Type 0} → Value F → Type 0
IsLeaf (struct fs) = ⊥
IsLeaf v = Unit

module _ {F : Type 0} (name : Bytes) (path : List ℕ) where
  -- A flag with this name for the field at this path.
  abbrev Has : List (Flag F) → Type 0
  Has [] = ⊥
  Has (f ∷ fs) = ((f.name ≡ name) × (f.path ≡ path)) ⊎ Has fs

  -- The same of a registration that ends without an error.
  abbrev pub HasFlag : Registered (List (Flag F)) → Type 0
  HasFlag (registered fs) = Has fs
  HasFlag (refused fs e) = Unit
  HasFlag panicked = Unit

  Has-append : (fs gs : List (Flag F)) → Has fs → Has (fs ++ gs)
  Has-append [] gs h = absurd h
  Has-append (f ∷ fs) gs (inl h) = inl h
  Has-append (f ∷ fs) gs (inr h) = inr (Has-append fs gs h)

  Has-last : (fs : List (Flag F)) (f : Flag F) → f.name ≡ name → f.path ≡ path → Has (fs ++ f ∷ [])
  Has-last [] f n p = inl (n, p)
  Has-last (g ∷ fs) f n p = inr (Has-last fs f n p)

  after-HasFlag :
      (r : Registered (List (Flag F))) (k : List (Flag F) → Registered (List (Flag F)))
      → HasFlag r
      → ((fs : List (Flag F)) → Has fs → HasFlag (k fs))
      → HasFlag (after r k)
  after-HasFlag (registered fs) k h hk = hk fs h
  after-HasFlag (refused fs e) k h hk = tt
  after-HasFlag panicked k h hk = tt

  after_any :
      (r : Registered (List (Flag F))) (k : List (Flag F) → Registered (List (Flag F)))
      → ((fs : List (Flag F)) → HasFlag (k fs))
      → HasFlag (after r k)
  after_any (registered fs) k hk = hk fs
  after_any (refused fs e) k hk = tt
  after_any panicked k hk = tt

  register_kept :
      (with_short : Bool) (tags : Tags) (v : Value F) (at : List ℕ) (fs : List (Flag F))
      → Has fs
      → HasFlag (either_register with_short collect tags v at fs)
  unfolding either_register
  register_kept with_short tags v at fs h = elim (Bool-cases (supported v)) [
    | inl e ↦ rw e (Has-append fs _ h)
    | inr e ↦ rw e tt
  ]

  field_kept :
      (with_short : Bool) (tags : Tags) (v : Value F) (at : List ℕ) (fs : List (Flag F))
      → Has fs
      → HasFlag (either_register_field with_short collect tags v at fs)
  unfolding either_register_field
  field_kept with_short tags v at fs h =
      by_flag tags.flag _ (register_kept with_short tags v at fs h)
    where
      by_flag :
          (flag : Bytes) (r : Registered (List (Flag F)))
          → HasFlag r
          → HasFlag (elim flag [ [] ↦ registered fs | _ ↦ r ])
      by_flag [] r hr = h
      by_flag (c ∷ s) r hr = hr

  mutual
    unfolding either_walk_value either_walk_fields

    value_kept :
        (with_short : Bool) (tags : Tags) (v : Value F) (at : List ℕ) (fs : List (Flag F))
        → Has fs
        → HasFlag (either_walk_value with_short collect tags v at fs)
    value_kept w tags (struct gs) at fs h = fields_kept w gs at 0 fs h
    value_kept w tags (scalar k s) at fs h = field_kept w tags (scalar k s) at fs h
    value_kept w tags (slice k ss) at fs h = field_kept w tags (slice k ss) at fs h
    value_kept w tags (nil_ptr v) at fs h = field_kept w tags (nil_ptr v) at fs h
    value_kept w tags (ptr v) at fs h = field_kept w tags (ptr v) at fs h

    fields_kept :
        (with_short : Bool) (gs : Fields F) (at : List ℕ) (i : ℕ) (fs : List (Flag F))
        → Has fs
        → HasFlag (either_walk_fields with_short collect gs at i fs)
    fields_kept w end at i fs h = h
    fields_kept w (field tags v gs) at i fs h =
        after-HasFlag (either_walk_value w collect tags v (at ++ i ∷ []) fs)
          (λ s. either_walk_fields w collect gs at (i + 1) s)
          (value_kept w tags v (at ++ i ∷ []) fs h) (λ s hs. fields_kept w gs at (i + 1) s hs)

  module _ (with_short : Bool) (tags : Tags) (named : (flag_names tags.flag).0 ≡ name)
      (tagged : tags.flag ≢ []) where
    register_found :
        (v : Value F) (fs : List (Flag F))
        → HasFlag (either_register with_short collect tags v path fs)
    unfolding either_register
    register_found v fs = elim (Bool-cases (supported v)) [
      | inl e ↦ rw e (Has-last fs _ named refl)
      | inr e ↦ rw e tt
    ]

    field_found :
        (v : Value F) (fs : List (Flag F))
        → HasFlag (either_register_field with_short collect tags v path fs)
    unfolding either_register_field
    field_found v fs = by_flag tags.flag _ tagged (register_found v fs)
      where
        by_flag :
            (flag : Bytes) (r : Registered (List (Flag F)))
            → flag ≢ []
            → HasFlag r
            → HasFlag (elim flag [ [] ↦ registered fs | _ ↦ r ])
        by_flag [] r ne hr = absurd (ne refl)
        by_flag (c ∷ s) r ne hr = hr

    leaf_found :
        (v : Value F) (fs : List (Flag F))
        → IsLeaf v
        → HasFlag (either_walk_value with_short collect tags v path fs)
    unfolding either_walk_value
    leaf_found (struct gs) fs h = absurd h
    leaf_found (scalar k s) fs h = field_found (scalar k s) fs
    leaf_found (slice k ss) fs h = field_found (slice k ss) fs
    leaf_found (nil_ptr v) fs h = field_found (nil_ptr v) fs
    leaf_found (ptr v) fs h = field_found (ptr v) fs

    fields_found :
        (gs : Fields F) (i first : ℕ) (v : Value F) (fs : List (Flag F))
        → path ≡ (first + i) ∷ []
        → nth i gs ≡ some (tags, v)
        → IsLeaf v
        → HasFlag (either_walk_fields with_short collect gs [] first fs)
    unfolding either_walk_fields
    fields_found end i first v fs p at_i leaf = absurd (cc)
    fields_found (field tags' v' gs) zero first v fs p at_i leaf =
        let same_tags : tags' ≡ tags = cc in
        let same_value : v' ≡ v = cc in
        let same_path : path ≡ first ∷ [] = p ∙ ap (λ n. n ∷ []) (omega arith) in
        let here : HasFlag (either_walk_value with_short collect tags' v' (first ∷ []) fs) =
          subst (λ q. HasFlag (either_walk_value with_short collect tags' v' q fs)) same_path
            (subst (λ u. HasFlag (either_walk_value with_short collect tags' u path fs))
              (sym same_value)
              (subst (λ u. HasFlag (either_walk_value with_short collect u v path fs))
                (sym same_tags) (leaf_found v fs leaf))) in
        after-HasFlag (either_walk_value with_short collect tags' v' (first ∷ []) fs)
          (λ s. either_walk_fields with_short collect gs [] (first + 1) s) here
          (λ s hs. fields_kept with_short gs [] (first + 1) s hs)
    fields_found (field tags' v' gs) (suc i) first v fs p at_i leaf =
        after_any (either_walk_value with_short collect tags' v' (first ∷ []) fs)
          (λ s. either_walk_fields with_short collect gs [] (first + 1) s)
          (λ s. fields_found gs i (first + 1) v s (p ∙ ap (λ n. n ∷ []) (omega arith)) at_i leaf)

-- Where parseFlagStruct or parsePFlagStruct ends without an error: each field of the struct that is no struct has a
-- flag for this field, if its flag tag is parts between bars of which one has at least two bytes and those behind it
-- have at most one; and the name of the flag is that part, the last one of at least two bytes.
pub parse_flag_struct-HasFlag :
    {F : Type 0} (gs : Fields F) (i : ℕ) (tags : Tags) (v : Value F) (before after : List Bytes)
    (name : Bytes)
    → nth i gs ≡ some (tags, v)
    → IsLeaf v
    → tags.flag ≡ join b'|' (before ++ name ∷ after)
    → All IsPart (before ++ name ∷ after)
    → 1 < length name
    → All IsShort after
    → HasFlag name (i ∷ []) (parse_flag_struct collect (to gs) [])
      × HasFlag name (i ∷ []) (parse_pflag_struct collect (to gs) [])
parse_flag_struct-HasFlag gs i tags v before after name at_i leaf tag parts long short =
    let named : (flag_names tags.flag).0 ≡ name =
      ap (λ t. (flag_names t).0) tag ∙ flag_names-join before after name parts long short in
    let found : (with_short : Bool)
        → HasFlag name (i ∷ []) (either_walk_fields with_short collect gs [] 0 []) =
      λ with_short.
        fields_found name (i ∷ []) with_short tags named (not_empty tags.flag name named long) gs i
          0 v [] (ap (λ n. n ∷ []) (omega arith)) at_i leaf in
    (
      subst (HasFlag name (i ∷ [])) (sym (parse_flag_struct-to collect gs [])) (found false),
      subst (HasFlag name (i ∷ [])) (sym (parse_pflag_struct-to collect gs [])) (found true),
    )
