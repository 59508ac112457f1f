-- ===== src/Config/SliceValue/Laws.antt =====
-- What sliceValue.Set stores (config/config.go).
use opendevops_codo_golang_s.Go.Text.{split}
use opendevops_codo_golang_s.Config.Env.Range.{Fits}
use opendevops_codo_golang_s.Common.{List, Bytes, All, arith, map, ◌∷◌, []}
use opendevops_codo_golang_s.Config.SliceValue.{set, element}
use opendevops_codo_golang_s.Config.Value.{Platform, Kind, Scalar, class}
use opendevops_codo_golang_s.Go.Number.Bounds.{parse_int-InRange, parse_uint-lt}

module _ {F : Type 0} (os : Platform F) where
  element-Fits : (k : Kind) (s : Bytes) → Fits (class k) (element os (class k) s)
  unfolding element class
  element-Fits Kind.string s = tt
  element-Fits Kind.int s = parse_int-InRange 64 s
  element-Fits Kind.int8 s = parse_int-InRange 8 s
  element-Fits Kind.int16 s = parse_int-InRange 16 s
  element-Fits Kind.int32 s = parse_int-InRange 32 s
  element-Fits Kind.int64 s = parse_int-InRange 64 s
  element-Fits Kind.uint s = parse_uint-lt 64 s
  element-Fits Kind.uint8 s = parse_uint-lt 8 s
  element-Fits Kind.uint16 s = parse_uint-lt 16 s
  element-Fits Kind.uint32 s = parse_uint-lt 32 s
  element-Fits Kind.uint64 s = parse_uint-lt 64 s
  element-Fits Kind.bool s = ground arith
  element-Fits Kind.float32 s = tt
  element-Fits Kind.float64 s = tt
  element-Fits Kind.other s = tt

  elements_fit : (k : Kind) (ss : List Bytes) → All (Fits (class k)) (map (element os (class k)) ss)
  elements_fit k [] = tt
  elements_fit k (s ∷ ss) = (element-Fits k s, elements_fit k ss)

  -- Whatever the text, every element that Set stores is in the range of the element type: a number
  -- out of range is clamped, and never wraps around.
  set-Fits :
      (k : Kind) (old : List (Scalar F)) (s : Bytes)
      → All (Fits (class k)) old
      → All (Fits (class k)) (set os k old s)
  unfolding set
  set-Fits Kind.other old s h = h
  set-Fits k old s h = elements_fit k (split b',' s)
