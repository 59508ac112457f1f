-- ===== src/Config/Flags.antt =====
-- parseFlagStruct of config/config.go. The flag set is a parameter: `add` is its family of Var methods, which
-- panic (`none`) on a name that they do not take.
pub mod Pflag
pub mod Either
pub mod Same
pub mod Paths
pub mod Tag
pub mod Names
use opendevops_codo_golang_s.Go.Text.{split}
use opendevops_codo_golang_s.Config.Value.{
  ConfigError, Kind, Value, Tags, Target, scalar, slice, struct, to, Fields, invalid_target, string,
  unsupported, field, int, of_field, float64, int64, end, uint, uint64, bool, unsupported_type,
  unsupported_slice_type, unsupported_pointer,
}
use opendevops_codo_golang_s.Common.{
  Bool, Bytes, List, Option, some, true, ℕ, ◌∷◌, [], false, if◌then◌else◌, none, ltb, length, ◌++◌,
  ◌+◌,
}

-- The loop over the parts of a flag tag: name and shorthand so far.
name_parts : List Bytes → Bytes → Bytes → Bytes × Bytes
name_parts [] name short = (name, short)
name_parts ([] ∷ ps) name short = name_parts ps name short
name_parts ((c ∷ []) ∷ ps) name short = name_parts ps name (c ∷ [])
name_parts ((c ∷ d ∷ s) ∷ ps) name short = name_parts ps (c ∷ d ∷ s) short

-- The name and the shorthand that a flag tag gives.
unfoldable pub flag_names : Bytes → Bytes × Bytes
unfolding name_parts
flag_names tag =
    let parts = split b'|' tag in
    if ltb 1 (length parts) then name_parts parts tag [] else (tag, [])

-- The kinds that have a Var method, alone and as the elements of a slice.
unfoldable pub has_var : Kind → Bool
has_var string = true
has_var int = true
has_var float64 = true
has_var int64 = true
has_var uint = true
has_var uint64 = true
has_var bool = true
has_var _ = false

-- A registered flag: the field is given by its index at each level.
pub record Flag (F : Type 0) : Type 0 where
  pub name : Bytes
  pub short : Bytes
  pub usage : Bytes
  pub path : List ℕ
  pub default : Value F

pub data Registered (S : Type 0) : Type 0 where
  registered : S → Registered S
  refused : S → ConfigError → Registered S
  panicked : Registered S

abbrev pub after : {S : Type 0} → Registered S → (S → Registered S) → Registered S
after (registered s) f = f s
after (refused s e) f = refused s e
after panicked f = panicked

abbrev pub added : {S : Type 0} → Option S → Registered S
added none = panicked
added (some s) = registered s

abbrev pub supported : {F : Type 0} → Value F → Bool
supported (scalar k s) = has_var k
supported (slice k ss) = has_var k
supported _ = false

-- The error for a field that no Var method takes.
abbrev pub refusal : {F : Type 0} → Value F → ConfigError
refusal (scalar k s) = unsupported_type k
refusal (slice k ss) = unsupported_slice_type k
refusal _ = unsupported_pointer

module _ {F S : Type 0} (add : S → Flag F → Option S) where
  -- The switch on the kind of a field that has a flag tag; the shorthand is not used.
  register : Tags → Value F → List ℕ → S → Registered S
  register tags v path s =
      let (name, short) = flag_names tags.flag in
      if supported v
      then added
          (add s (record { name = name; short = []; usage = tags.usage; path = path; default = v }))
      else refused s (refusal v)

  -- A field that is no struct: skipped without a flag tag.
  register_field : Tags → Value F → List ℕ → S → Registered S
  register_field tags v path s = elim tags.flag [ [] ↦ registered s | _ ↦ register tags v path s ]

  mutual
    walk_value : Tags → Value F → List ℕ → S → Registered S
    walk_value tags (struct fs) path s = walk_fields fs path 0 s
    walk_value tags v path s = register_field tags v path s

    walk_fields : Fields F → List ℕ → ℕ → S → Registered S
    walk_fields end path i s = registered s
    walk_fields (field tags v fs) path i s =
        after (walk_value tags v (path ++ i ∷ []) s) (λ s'. walk_fields fs path (i + 1) s')

  unfoldable pub parse_flag_struct : Target F → S → Registered S
  unfolding walk_value walk_fields register_field register
  parse_flag_struct (to fs) s = walk_fields fs [] 0 s
  parse_flag_struct _ s = refused s invalid_target
