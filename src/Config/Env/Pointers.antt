-- ===== src/Config/Env/Pointers.antt =====
-- What parseEnv loses behind nil pointers (config/config.go).
use opendevops_codo_golang_s.Common.{◌≡◌, ◌≢◌, Bool, true, List, arith, Bytes}
use opendevops_codo_golang_s.Config.Value.{
  Kind, Scalar, scalar, slice, struct, nil_ptr, ptr, Fields, end, field, Result, ok, Platform,
}
use opendevops_codo_golang_s.Config.Env.{env_key, set_slice_field, parse_value, parse_fields}

-- Every field of the struct is a slice.
abbrev AllSlices : {F : Type 0} → Fields F → Type 0
AllSlices end = Unit
AllSlices (field tags (slice k ss) fs) = AllSlices fs
AllSlices (field tags v fs) = ⊥

abbrev SetsNothing : Result Bool → Type 0
SetsNothing r = r ≢ ok true

module _ {F : Type 0} (os : Platform F) where
  slice-SetsNothing :
      (k : Kind) (old : List (Scalar F)) (key : Bytes)
      → SetsNothing (set_slice_field os k old key).1
  unfolding set_slice_field
  slice-SetsNothing k old key = ground arith

  slices_set_nothing :
      (prefix : Bytes) (fs : Fields F) → AllSlices fs → SetsNothing (parse_fields os prefix fs).1
  unfolding parse_fields parse_value
  slices_set_nothing prefix end h = cc
  slices_set_nothing prefix (field tags (scalar k s) fs) h = absurd h
  slices_set_nothing prefix (field tags (struct gs) fs) h = absurd h
  slices_set_nothing prefix (field tags (ptr v) fs) h = absurd h
  slices_set_nothing prefix (field tags (nil_ptr v) fs) h = absurd h
  slices_set_nothing prefix (field tags (slice k ss) fs) h =
      ground
        (arith, slice-SetsNothing k ss (env_key os prefix tags), slices_set_nothing prefix fs h)

  -- A nil pointer to a struct all of whose fields are slices stays nil, whatever the environment.
  pub slices_behind_nil :
      (prefix key : Bytes) (fs : Fields F)
      → AllSlices fs
      → (parse_value os prefix key (nil_ptr (struct fs))).0 ≡ nil_ptr (struct fs)
  unfolding parse_value
  slices_behind_nil prefix key fs h = ground (arith, slices_set_nothing prefix fs h)
