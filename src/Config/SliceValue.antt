-- ===== src/Config/SliceValue.antt =====
-- The flag value sliceValue[T] of config/config.go. Set drops the errors of strconv, so a text that is
-- no number stands for 0 and one out of range for the nearest value.
pub mod Laws
use opendevops_codo_golang_s.Go.Number.{parse_int, parse_uint, parse_bool}
use opendevops_codo_golang_s.Go.Text.{split}
use opendevops_codo_golang_s.Common.{Bytes, List, map, if◌then◌else◌, ◌==◌, none, false, some}
use opendevops_codo_golang_s.Config.Value.{
  Platform, Class, class, Kind, Scalar, str, signed, num, other, unsigned, nat, float, flt, truth,
  opaque, text, boolean, opaque_class,
}

module _ {F : Type 0} (os : Platform F) where
  -- The conversion of one part, by the type of the elements.
  element : Class → Bytes → Scalar F
  element text s = str s
  element (signed bits) s = num (parse_int bits s).value
  element (unsigned bits) s = nat (parse_uint bits s).value
  element (float bits) s =
      let f = (os.parse_float bits s).value in flt (if bits == 32 then os.round32 f else f)
  element boolean s = elim (parse_bool s) [ none ↦ truth false | some b ↦ truth b ]
  element opaque_class s = opaque

  -- Set(value); for a type that is not among the cases the slice is left as it is.
  unfoldable pub set : Kind → List (Scalar F) → Bytes → List (Scalar F)
  unfolding element class
  set other old value = old
  set k old value = map (element (class k)) (split b',' value)
