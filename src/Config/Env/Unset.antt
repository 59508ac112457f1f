-- ===== src/Config/Env/Unset.antt =====
-- parseEnv where no variable is set (config/config.go).
use opendevops_codo_golang_s.Common.{◌≡◌, refl, false, List, [], arith, Bytes}
use opendevops_codo_golang_s.Config.Value.{
  Kind, Scalar, Value, scalar, slice, struct, nil_ptr, ptr, Fields, end, field, to, ok, Platform,
}
use opendevops_codo_golang_s.Config.Env.{
  env_key_prefix, env_key, set_field, set_slice_field, set_pointer, parse_value, parse_fields,
  load_env,
}

module _ {F : Type 0} (os : Platform F) (unset : (key : Bytes) → os.getenv key ≡ []) where
  field_unset : (k : Kind) (old : Scalar F) (key : Bytes) → set_field os k old key ≡ (old, ok false)
  unfolding set_field
  field_unset k old key = ground (arith, unset key)

  slice_unset :
      (k : Kind) (old : List (Scalar F)) (key : Bytes)
      → set_slice_field os k old key ≡ (old, ok false)
  unfolding set_slice_field
  slice_unset k old key = ground (arith, unset key)

  pointer_unset : (key : Bytes) → set_pointer os key ≡ ok false
  unfolding set_pointer
  pointer_unset key = ground (arith, unset key)

  mutual
    unfolding parse_value parse_fields

    value_unset : (prefix key : Bytes) (v : Value F) → parse_value os prefix key v ≡ (v, ok false)
    value_unset prefix key (scalar k s) = ground (arith, field_unset k s key)
    value_unset prefix key (slice k ss) = ground (arith, slice_unset k ss key)
    value_unset prefix key (struct fs) = ground (arith, fields_unset prefix fs)
    value_unset prefix key (ptr (scalar k s)) = ground (arith, field_unset k s key)
    value_unset prefix key (ptr (slice k ss)) = ground (arith, slice_unset k ss key)
    value_unset prefix key (ptr (struct fs)) = ground (arith, fields_unset prefix fs)
    value_unset prefix key (ptr p) = ground (arith, pointer_unset key)
    value_unset prefix key (nil_ptr (scalar k s)) = ground (arith, field_unset k s key)
    value_unset prefix key (nil_ptr (slice k ss)) = ground (arith, slice_unset k ss key)
    value_unset prefix key (nil_ptr (struct fs)) = ground (arith, fields_unset prefix fs)
    value_unset prefix key (nil_ptr p) = ground (arith, pointer_unset key)

    fields_unset : (prefix : Bytes) (fs : Fields F) → parse_fields os prefix fs ≡ (fs, ok false)
    fields_unset prefix end = refl
    fields_unset prefix (field tags v fs) = ground (
      arith,
      value_unset (env_key_prefix os prefix tags) (env_key os prefix tags) v,
      fields_unset prefix fs,
    )

  -- Where no environment variable is set, LoadEnv makes no error and changes nothing, whatever the
  -- struct and the prefix.
  load_env_unset : (prefix : Bytes) (fs : Fields F) → load_env os prefix (to fs) ≡ (to fs, ok false)
  unfolding load_env
  load_env_unset prefix fs = rw (fields_unset prefix fs)
