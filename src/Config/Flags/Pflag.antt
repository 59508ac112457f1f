-- ===== src/Config/Flags/Pflag.antt =====
-- parsePFlagStruct of config/config.go, with its own loop over the tag and its own switches.
use opendevops_codo_golang_s.Go.Text.{split}
use opendevops_codo_golang_s.Common.{
  ◌∷◌, Bool, Bytes, List, Option, [], false, true, ℕ, if◌then◌else◌, ◌++◌, ltb, ◌+◌, length,
}
use opendevops_codo_golang_s.Config.Flags.{
  Flag, Registered, registered, refused, after, added, refusal,
}
use opendevops_codo_golang_s.Config.Value.{
  Kind, string, int, float64, int64, uint, uint64, bool, Value, Tags, Target, Fields, end, field,
  to, struct, scalar, slice, invalid_target,
}

-- The loop over the parts of a flag tag: name and shorthand so far.
unfoldable pub p_name_parts : List Bytes → Bytes → Bytes → Bytes × Bytes
p_name_parts [] name short = (name, short)
p_name_parts ([] ∷ ps) name short = p_name_parts ps name short
p_name_parts ((c ∷ []) ∷ ps) name short = p_name_parts ps name (c ∷ [])
p_name_parts ((c ∷ d ∷ s) ∷ ps) name short = p_name_parts ps (c ∷ d ∷ s) short

-- The name and the shorthand that a flag tag gives.
unfoldable pub p_flag_names : Bytes → Bytes × Bytes
unfolding p_name_parts
p_flag_names tag =
    let parts = split b'|' tag in
    if ltb 1 (length parts) then p_name_parts parts tag [] else (tag, [])

-- The kinds that have a Var method, alone and as the elements of a slice.
unfoldable pub p_has_var : Kind → Bool
p_has_var string = true
p_has_var int = true
p_has_var float64 = true
p_has_var int64 = true
p_has_var uint = true
p_has_var uint64 = true
p_has_var bool = true
p_has_var _ = false

abbrev pub p_supported : {F : Type 0} → Value F → Bool
p_supported (scalar k s) = p_has_var k
p_supported (slice k ss) = p_has_var k
p_supported _ = false

module _ {F S : Type 0} (add : S → Flag F → Option S) where
  -- The switch on the kind of a field that has a flag tag.
  unfoldable pub p_register : Tags → Value F → List ℕ → S → Registered S
  p_register tags v path s =
      let (name, short) = p_flag_names tags.flag in
      if p_supported v
      then added (
          add s
            (record { name = name; short = short; usage = tags.usage; path = path; default = v }))
      else refused s (refusal v)

  -- A field that is no struct: skipped without a flag tag.
  unfoldable pub p_register_field : Tags → Value F → List ℕ → S → Registered S
  p_register_field tags v path s = elim tags.flag [
    | [] ↦ registered s
    | _ ↦ p_register tags v path s
  ]

  unfoldable mutual
    pub p_walk_value : Tags → Value F → List ℕ → S → Registered S
    p_walk_value tags (struct fs) path s = p_walk_fields fs path 0 s
    p_walk_value tags v path s = p_register_field tags v path s

    pub p_walk_fields : Fields F → List ℕ → ℕ → S → Registered S
    p_walk_fields end path i s = registered s
    p_walk_fields (field tags v fs) path i s =
        after (p_walk_value tags v (path ++ i ∷ []) s) (λ s'. p_walk_fields fs path (i + 1) s')

  unfoldable pub parse_pflag_struct : Target F → S → Registered S
  unfolding p_walk_value p_walk_fields p_register_field p_register
  parse_pflag_struct (to fs) s = p_walk_fields fs [] 0 s
  parse_pflag_struct _ s = refused s invalid_target
