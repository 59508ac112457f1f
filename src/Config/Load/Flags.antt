-- ===== src/Config/Load/Flags.antt =====
-- LoadFlag and LoadPFlag of config/config.go, over the flag packages as a parameter.
pub mod Stores
pub mod Order
use opendevops_codo_golang_s.Config.Flags.Pflag.{parse_pflag_struct}
use mathlib.Core.Option
use opendevops_codo_golang_s.Config.Value.{
  Scalar, Target, Value, scalar, Fields, slice, struct, to, field, end,
}
use opendevops_codo_golang_s.Common.{◌∷◌, List, Option, Bytes, some, ℕ, none, [], suc, zero}
use opendevops_codo_golang_s.Config.Flags.{
  Flag, Registered, parse_flag_struct, registered, refused, panicked,
}
use opendevops_codo_golang_s.Config.Load.{Loader, LoadError, library, config, panic}

-- What a flag set writes through the pointer of a flag: a value, or the elements of a sliceValue.
pub data Stored (F : Type 0) : Type 0 where
  one : Scalar F → Stored F
  elements : List (Scalar F) → Stored F

-- A type of flag sets, *flag.FlagSet or *pflag.FlagSet: its Var methods, which panic (`none`) on a name that they
-- do not take, and Parse, which writes to the fields of some flags, given by their paths, and may fail.
pub record FlagLib (F E S : Type 0) : Type 0 where
  pub add : S → Flag F → Option S
  pub parse : S → List Bytes → List (List ℕ × Stored F) × Option E

-- A write to a variable of the type that the flag was registered with.
abbrev overwrite : {F : Type 0} → Stored F → Value F → Value F
overwrite (one s) (scalar k old) = scalar k s
overwrite (elements ss) (slice k old) = slice k ss
overwrite s v = v

module _ {F : Type 0} where
  unfoldable mutual
    pub store_value : List ℕ → Stored F → Value F → Value F
    store_value [] s v = overwrite s v
    store_value (i ∷ path) s (struct fs) = struct (store_field i path s fs)
    store_value (i ∷ path) s v = v

    pub store_field : ℕ → List ℕ → Stored F → Fields F → Fields F
    store_field i path s end = end
    store_field zero path s (field tags v fs) = field tags (store_value path s v) fs
    store_field (suc i) path s (field tags v fs) = field tags v (store_field i path s fs)

  abbrev store : List ℕ × Stored F → Fields F → Fields F
  store ([], s) fs = fs
  store (i ∷ path, s) fs = store_field i path s fs

  -- Parse writes to the fields of the target.
  unfoldable pub store_all : List (List ℕ × Stored F) → Fields F → Fields F
  store_all [] fs = fs
  store_all (w ∷ ws) fs = store_all ws (store w fs)

  unfoldable pub store_target : List (List ℕ × Stored F) → Target F → Target F
  store_target ws (to fs) = to (store_all ws fs)
  store_target ws t = t

module _ {F E S : Type 0} (lib : FlagLib F E S) where
  -- A nil flag set panics.
  abbrev pub add_to : Option S → Flag F → Option (Option S)
  add_to none f = none
  add_to (some s) f = Option.map some (lib.add s f)

  -- flagSet.Parse(args)
  abbrev pub of_parse :
      Target F → List (List ℕ × Stored F) × Option E → Target F × Option (LoadError E)
  of_parse t (ws, none) = (store_target ws t, none)
  of_parse t (ws, some e) = (store_target ws t, some (library e))

  -- Behind the registration, which writes to each variable the value that it has.
  abbrev pub parsed :
      List Bytes → Target F → Registered (Option S) → Target F × Option (LoadError E)
  parsed args t (registered none) = (t, some panic)
  parsed args t (registered (some s)) = of_parse t (lib.parse s args)
  parsed args t (refused s e) = (t, some (config e))
  parsed args t panicked = (t, some panic)

  -- LoadFlag
  unfoldable pub load_flag : Option S → List Bytes → Loader F E
  load_flag set args t = parsed args t (parse_flag_struct add_to t set)

  -- LoadPFlag
  unfoldable pub load_pflag : Option S → List Bytes → Loader F E
  load_pflag set args t = parsed args t (parse_pflag_struct add_to t set)
