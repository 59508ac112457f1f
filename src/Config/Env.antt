-- ===== src/Config/Env.antt =====
-- LoadEnv, parseEnv, setField and setSliceField of config/config.go. A walk returns the fields as
-- they stand when it ends: what was set before an error stays set.
pub mod Codec
pub mod Unset
pub mod Range
pub mod Pointers
pub mod RoundTrip
use opendevops_codo_golang_s.Common.{
  ℕ, Bool, true, false, ◌||◌, List, [], ◌∷◌, ◌++◌, Bytes, utf8, if◌then◌else◌,
}
use opendevops_codo_golang_s.Go.Text.{split, to_upper, trim_space}
use opendevops_codo_golang_s.Config.Value.{
  Kind, Class, text, class, Scalar, str, Tags, Value, scalar, slice, struct, nil_ptr, ptr, Fields,
  end, field, Target, not_pointer, nil_pointer, to, of_field, of_slice, ConfigError, invalid_target,
  unsupported, Result, ok, err, ◌>>=◌, Platform,
}
use Codec.{convert}

first_nonempty : List Bytes → Bytes
first_nonempty [] = []
first_nonempty ([] ∷ ks) = first_nonempty ks
first_nonempty ((c ∷ k) ∷ ks) = c ∷ k

-- value.SetString and its kind, unless the text could not be read.
abbrev pub store_scalar : {F : Type 0} → Scalar F → Result (Scalar F) → Scalar F × Result Bool
store_scalar old (ok new) = (new, ok true)
store_scalar old (err e) = (old, err e)

-- value.Set(slice), unless an element made an error.
abbrev pub store_slice :
    {F : Type 0} → List (Scalar F) → Result (List (Scalar F)) → List (Scalar F) × Result Bool
store_slice old (ok new) = (new, ok false)
store_slice old (err e) = (old, err e)

module _ {F : Type 0} (os : Platform F) where
  -- The upper-case yaml tag, else the json tag, else the name, behind the prefix.
  unfoldable pub env_key_prefix : Bytes → Tags → Bytes
  unfolding first_nonempty
  env_key_prefix prefix tags =
      let up = to_upper os.unicode in
      let key = first_nonempty (up tags.yaml ∷ up tags.json ∷ up tags.name ∷ []) in
      elim key [
        | [] ↦ []
        | c ∷ k ↦ elim prefix [ [] ↦ c ∷ k | p ∷ ps ↦ (p ∷ ps) ++ (utf8 "_" ++ (c ∷ k)) ]
      ]

  -- The env tag, else the prefixed key.
  unfoldable pub env_key : Bytes → Tags → Bytes
  env_key prefix tags = elim tags.env [ [] ↦ env_key_prefix prefix tags | c ∷ s ↦ c ∷ s ]

  -- The rest of setField, behind os.Getenv.
  assign : Class → Scalar F → Bytes → Bytes → Scalar F × Result Bool
  assign cls old key [] = (old, ok false)
  assign text old key (c ∷ s) = (str (trim_space os.unicode (c ∷ s)), ok true)
  assign cls old key (c ∷ s) = store_scalar old (convert os cls of_field key (c ∷ s))

  -- setField(value, envKey)
  unfoldable pub set_field : Kind → Scalar F → Bytes → Scalar F × Result Bool
  unfolding assign
  set_field k old key = assign (class k) old key (os.getenv key)

  -- The loop of setSliceField over the elements.
  convert_all : Class → Bytes → List Bytes → Result (List (Scalar F))
  convert_all cls key [] = ok []
  convert_all cls key (s ∷ ss) = convert os cls of_slice key (trim_space os.unicode s) >>= λ v.
      convert_all cls key ss >>= λ vs. ok (v ∷ vs)

  -- The rest of setSliceField, behind os.Getenv.
  assign_slice : Class → List (Scalar F) → Bytes → Bytes → List (Scalar F) × Result Bool
  unfolding convert_all
  assign_slice cls old key [] = (old, ok false)
  assign_slice cls old key (c ∷ s) = store_slice old (convert_all cls key (split b',' (c ∷ s)))

  -- setSliceField(value, envKey); its caller reads no flag, so a success says `false`.
  unfoldable pub set_slice_field : Kind → List (Scalar F) → Bytes → List (Scalar F) × Result Bool
  unfolding assign_slice
  set_slice_field k old key = assign_slice (class k) old key (os.getenv key)

  -- setField on a value whose kind is reflect.Pointer.
  unfoldable pub set_pointer : Bytes → Result Bool
  set_pointer key = elim (os.getenv key) [ [] ↦ ok false | c ∷ s ↦ err (unsupported of_field key) ]

-- What a walk has done once the rest of it is done too: whether a field was set, or the error.
abbrev also : Result Bool → Result Bool → Result Bool
also (ok a) (ok b) = ok (a || b)
also (ok a) (err e) = err e
also (err e) r = err e

-- The walk goes on behind a field that made no error.
abbrev pub continue :
    {F : Type 0} → Result Bool → Fields F → Fields F × Result Bool → Fields F × Result Bool
continue (ok a) fs rest = (rest.0, also (ok a) rest.1)
continue (err e) fs rest = (fs, err e)

-- A struct behind a nil pointer is stored only if one of its fields was set.
abbrev pub store_new : {F : Type 0} → Fields F → Fields F × Result Bool → Value F × Result Bool
store_new old (fs, ok true) = (ptr (struct fs), ok true)
store_new old (fs, r) = (nil_ptr (struct old), r)

module _ {F : Type 0} (os : Platform F) where
  unfoldable mutual
    -- One round of parseEnv's loop: the prefix for a struct below, the key for anything else.
    pub parse_value : Bytes → Bytes → Value F → Value F × Result Bool
    parse_value prefix key (scalar k s) = let (s', r) = set_field os k s key in (scalar k s', r)
    parse_value prefix key (slice k ss) =
        let (ss', r) = set_slice_field os k ss key in (slice k ss', r)
    parse_value prefix key (struct fs) = let (fs', r) = parse_fields prefix fs in (struct fs', r)
    parse_value prefix key (ptr (scalar k s)) =
        let (s', r) = set_field os k s key in (ptr (scalar k s'), r)
    parse_value prefix key (ptr (slice k ss)) =
        let (ss', r) = set_slice_field os k ss key in (ptr (slice k ss'), r)
    parse_value prefix key (ptr (struct fs)) =
        let (fs', r) = parse_fields prefix fs in (ptr (struct fs'), r)
    parse_value prefix key (ptr p) = (ptr p, set_pointer os key)
    parse_value prefix key (nil_ptr (scalar k s)) = (nil_ptr (scalar k s), (set_field os k s key).1)
    parse_value prefix key (nil_ptr (slice k ss)) =
        (nil_ptr (slice k ss), (set_slice_field os k ss key).1)
    parse_value prefix key (nil_ptr (struct fs)) = store_new fs (parse_fields prefix fs)
    parse_value prefix key (nil_ptr p) = (nil_ptr p, set_pointer os key)

    pub parse_fields : Bytes → Fields F → Fields F × Result Bool
    parse_fields prefix end = (end, ok false)
    parse_fields prefix (field tags v fs) =
        let (v', r) = parse_value (env_key_prefix os prefix tags) (env_key os prefix tags) v in
        let (rest, r') = continue r fs (parse_fields prefix fs) in (field tags v' rest, r')

  -- parseEnv(prefix, v) on the argument of LoadEnv, and LoadEnv itself.
  unfoldable pub load_env : Bytes → Target F → Target F × Result Bool
  load_env prefix (to fs) = let (fs', r) = parse_fields prefix fs in (to fs', r)
  load_env prefix t = (t, err invalid_target)
