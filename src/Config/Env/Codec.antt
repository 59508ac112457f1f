-- ===== src/Config/Env/Codec.antt =====
-- The conversions of one text that the switches of setField and setSliceField share.
use opendevops_codo_golang_s.Common.{ℕ, ◌%◌, ◌^◌, none, some, Bytes, ◌==◌, if◌then◌else◌}
use opendevops_codo_golang_s.Go.Number.{
  ℤ, Parsed, parse_int, parse_uint, parse_bool, to_unsigned, to_signed,
}
use opendevops_codo_golang_s.Config.Value.{
  Class, text, boolean, opaque_class, float, signed, unsigned, Scalar, str, num, nat, flt, truth,
  Site, ConfigError, invalid_float, invalid_integer, invalid_unsigned, invalid_boolean, unsupported,
  Result, ok, err, Platform,
}

-- reflect.Value.SetInt keeps the low bits.
abbrev wrap_int : ℕ → ℤ → ℤ
wrap_int bits z = to_signed bits (to_unsigned bits z)

abbrev checked : {A B : Type 0} → Parsed A → (A → B) → ConfigError → Result B
checked r good e = elim r.error [ none ↦ ok (good r.value) | some _ ↦ err e ]

module _ {F : Type 0} (os : Platform F) where
  unfoldable pub convert : Class → Site → Bytes → Bytes → Result (Scalar F)
  convert text site key s = ok (str s)
  convert (float bits) site key s =
      checked (os.parse_float 64 s) (λ f. flt (if bits == 32 then os.round32 f else f))
        (invalid_float site key s)
  convert (signed bits) site key s =
      checked (parse_int 64 s) (λ z. num (wrap_int bits z)) (invalid_integer site key s)
  convert (unsigned bits) site key s =
      checked (parse_uint 64 s) (λ n. nat (n % 2 ^ bits)) (invalid_unsigned site key s)
  convert boolean site key s = elim (parse_bool s) [
    | none ↦ err (invalid_boolean site key s)
    | some b ↦ ok (truth b)
  ]
  convert opaque_class site key s = err (unsupported site key)
