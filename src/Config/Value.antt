-- ===== src/Config/Value.antt =====
-- The values that config.go reaches by reflection: a struct is its fields with their tags, a pointer
-- is nil, with the zero value of its type, or holds what it points to. All fields are exported.
use opendevops_codo_golang_s.Common.{ℕ, ◌≡◌, refl, Bool, List, Bytes}
use opendevops_codo_golang_s.Go.Number.{ℤ, Parsed}
use opendevops_codo_golang_s.Go.Text.{Unicode}

-- reflect.Kind of a value that is no struct, slice or pointer; `other` is every kind beside these.
pub data Kind : Type 0 where
  string bool : Kind
  int int8 int16 int32 int64 : Kind
  uint uint8 uint16 uint32 uint64 : Kind
  float32 float64 : Kind
  other : Kind

-- The cases that the switches on the kind tell apart, with the width in bits.
pub data Class : Type 0 where
  text boolean opaque_class : Class
  float signed unsigned : ℕ → Class

unfoldable pub class : Kind → Class
class string = text
class bool = boolean
class int = signed 64
class int8 = signed 8
class int16 = signed 16
class int32 = signed 32
class int64 = signed 64
class uint = unsigned 64
class uint8 = unsigned 8
class uint16 = unsigned 16
class uint32 = unsigned 32
class uint64 = unsigned 64
class float32 = float 32
class float64 = float 64
class other = opaque_class

-- F is Go's float64.
pub data Scalar (F : Type 0) : Type 0 where
  str : Bytes → Scalar F
  num : ℤ → Scalar F
  nat : ℕ → Scalar F
  flt : F → Scalar F
  truth : Bool → Scalar F
  opaque : Scalar F

-- reflect.StructField: the name and the tags that are read.
pub record Tags : Type 0 where
  pub name : Bytes
  pub yaml : Bytes
  pub json : Bytes
  pub env : Bytes
  pub flag : Bytes
  pub usage : Bytes

mutual
  pub data Value (F : Type 0) : Type 0 where
    scalar : Kind → Scalar F → Value F
    slice : Kind → List (Scalar F) → Value F
    struct : Fields F → Value F
    nil_ptr : Value F → Value F
    ptr : Value F → Value F

  pub data Fields (F : Type 0) : Type 0 where
    end : Fields F
    field : Tags → Value F → Fields F → Fields F

-- The argument of LoadEnv, LoadFlag and LoadPFlag.
pub data Target (F : Type 0) : Type 0 where
  not_pointer nil_pointer : Target F
  to : Fields F → Target F

-- Whose value an error message names.
pub data Site : Type 0 where
  of_field of_slice : Site

pub data ConfigError : Type 0 where
  invalid_target : ConfigError
  invalid_float invalid_integer invalid_unsigned invalid_boolean :
      Site → Bytes → Bytes → ConfigError
  unsupported : Site → Bytes → ConfigError
  -- Of parseFlagStruct and parsePFlagStruct: the kind of a field, or of the elements of a slice.
  unsupported_type unsupported_slice_type : Kind → ConfigError
  unsupported_pointer : ConfigError

pub data Result (A : Type 0) : Type 0 where
  ok : A → Result A
  err : ConfigError → Result A

infixl 5 ◌>>=◌
abbrev pub ◌>>=◌ : {A B : Type 0} → Result A → (A → Result B) → Result B
ok a >>= f = f a
err e >>= f = err e

-- A chain that succeeds has a first step that succeeds.
pub first_step :
    {A B : Type 0} {out : B} (k : A → Result B) (r : Result A)
    → r >>= k ≡ ok out
    → (x : A) × (r ≡ ok x) × (k x ≡ ok out)
first_step k (err e) fine = cc
first_step k (ok x) fine = (x, refl, fine)

-- The environment and the parts of the standard library that are not modelled: the tables of
-- Unicode, strconv.ParseFloat(s, bits) and the conversion of a float64 to float32.
pub record Platform (F : Type 0) : Type 0 where
  pub unicode : Unicode
  pub getenv : Bytes → Bytes
  pub parse_float : ℕ → Bytes → Parsed F
  pub round32 : F → F
