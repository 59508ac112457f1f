-- ===== src/Examples/Config.antt =====
-- Tests of the models of config/config.go.
use opendevops_codo_golang_s.Config.Flags.Pflag.{parse_pflag_struct}
use opendevops_codo_golang_s.Config.Env.Pointers.{slices_behind_nil}
use opendevops_codo_golang_s.Config.Flags.Same.{
  collect, parse_flag_struct-parse_pflag_struct, Alike, unshort,
}
use opendevops_codo_golang_s.Config.Env.RoundTrip.{print, set_slice_field-print, set_field-print}
use opendevops_codo_golang_s.Config.Flags.{parse_flag_struct, Flag, added}
use opendevops_codo_golang_s.Config.Env.Range.{AllWellTyped, load_env-AllWellTyped}
use opendevops_codo_golang_s.Config.Load.Priority.{nth, env_over_yaml}
use opendevops_codo_golang_s.Config.SliceValue
use opendevops_codo_golang_s.Config.Env.Codec.{convert}
use opendevops_codo_golang_s.Go.Number.{
  syntax, parse_uint, format_uint, itoa, parse_int, pos, negsuc,
}
use opendevops_codo_golang_s.Config.Env.{
  load_env, parse_fields, parse_value, set_field, env_key_prefix, env_key, set_slice_field,
}
use opendevops_codo_golang_s.Go.Text.{bare, to_upper, split, join}
use opendevops_codo_golang_s.Config.Load.{
  YamlLib, load_config, load_yaml, with_yaml, Loader, with_env,
}
use opendevops_codo_golang_s.Config.Value.{
  Platform, Target, Fields, Tags, to, field, scalar, Kind, nat, end, class, nil_ptr, ok, slice, num,
  struct,
}
use opendevops_codo_golang_s.Common.{
  Bytes, Option, String, ℕ, List, some, utf8, [], if◌then◌else◌, ◌≡◌, none, same, refl, ◌∷◌, false,
  true, arith, map, ap, ◌++◌, ◌∙◌, sym, map-append,
}

-- One variable is set; there are no floats.
abbrev platform : Bytes → Bytes → Platform (Unit {0})
platform key value = record {
  unicode = bare;
  getenv = λ k. if same k key then value else [];
  parse_float = λ bits s. record { value = tt; error = some syntax };
  round32 = λ f. f;
}

abbrev port_env : Platform (Unit {0})
port_env = platform (utf8 "APP_PORT") (utf8 "8080")

abbrev empty_env : Platform (Unit {0})
empty_env = platform (utf8 "X") []

abbrev tags_of : String → Tags
tags_of s = record { name = utf8 s; yaml = []; json = []; env = []; flag = utf8 s; usage = [] }

abbrev port_field : ℕ → Fields (Unit {0})
port_field n = field (tags_of "port") (scalar Kind.uint16 (nat n)) end

-- A YAML library that reads a port of 80 from every file.
abbrev yaml_80 : YamlLib (Unit {0}) (Unit {0}) (Unit {0})
yaml_80 = record {
  open_file = λ path. (some [], tt);
  decode = λ f. (some tt, tt);
  marshal = λ y. ([], none);
  unmarshal = λ bs t. (to (port_field 80), none);
}

abbrev no_flags : Option (Unit {0}) → List Bytes → Loader (Unit {0}) (Unit {0})
no_flags set args t = (t, none)

abbrev zero_port : Target (Unit {0})
zero_port = to (port_field 0)

loaded_from_env :
    load_config port_env yaml_80 no_flags no_flags
      (with_yaml (utf8 "c.yaml") ∷ with_env (utf8 "APP") ∷ [])
      zero_port
    ≡ (to (port_field 8080), none)
unfolding load_config load_yaml with_yaml with_env load_env parse_fields parse_value set_field class
    env_key_prefix env_key to_upper convert parse_uint
loaded_from_env = refl

loaded_from_yaml :
    load_config empty_env yaml_80 no_flags no_flags
      (with_yaml (utf8 "c.yaml") ∷ with_env (utf8 "APP") ∷ [])
      zero_port
    ≡ (to (port_field 80), none)
unfolding load_config load_yaml with_yaml with_env load_env parse_fields parse_value set_field class
    env_key_prefix env_key to_upper convert parse_uint
loaded_from_yaml = refl

yaml_read : load_yaml yaml_80 (utf8 "c.yaml") zero_port ≡ (to (port_field 80), none)
unfolding load_yaml
yaml_read = refl

port_read :
    port_env.getenv (env_key port_env (utf8 "APP") (tags_of "port"))
    ≡ print {F = Unit {0}} (nat 8080)
unfolding env_key env_key_prefix to_upper format_uint
port_read = refl

env_over_yaml_example :
    nth 0 (port_field 8080) ≡ some (tags_of "port", scalar Kind.uint16 (nat 8080))
unfolding class
env_over_yaml_example =
    env_over_yaml port_env yaml_80 no_flags no_flags (utf8 "c.yaml") (utf8 "APP") zero_port
      (port_field 80) (port_field 8080) 0 (tags_of "port") Kind.uint16 (nat 80) yaml_read
      loaded_from_env refl (nat 8080) (omega arith) tt port_read

port_unset : empty_env.getenv (env_key empty_env (utf8 "APP") (tags_of "port")) ≡ []
unfolding env_key env_key_prefix to_upper
port_unset = refl

-- 70000 does not fit a uint16: SetUint keeps the low bits, and the field stays in range.
abbrev wide_env : Platform (Unit {0})
wide_env = platform (utf8 "APP_PORT") (utf8 "70000")

wide_read : load_env wide_env (utf8 "APP") zero_port ≡ (to (port_field 4464), ok true)
unfolding load_env parse_fields parse_value set_field class env_key_prefix env_key to_upper convert
    parse_uint
wide_read = refl

load_env-AllWellTyped_example : AllWellTyped (port_field 4464)
unfolding class
load_env-AllWellTyped_example =
    load_env-AllWellTyped wide_env (utf8 "APP") (port_field 0) (port_field 4464) (ok true)
      (omega arith, tt) wide_read

set_field-print_example :
    set_field (platform (utf8 "K") (utf8 "-7")) Kind.int8 (num (pos 1)) (utf8 "K")
    ≡ (num (negsuc 6), ok true)
unfolding class itoa
set_field-print_example =
    set_field-print (platform (utf8 "K") (utf8 "-7")) Kind.int8 (num (pos 1)) (num (negsuc 6))
      (utf8 "K") (omega arith) tt refl

set_slice_field-print_example :
    set_slice_field (platform (utf8 "K") (utf8 "1,200")) Kind.uint8 [] (utf8 "K")
    ≡ (nat 1 ∷ nat 200 ∷ [], ok false)
unfolding class format_uint join
set_slice_field-print_example =
    set_slice_field-print (platform (utf8 "K") (utf8 "1,200")) Kind.uint8 [] (nat 1) (nat 200 ∷ [])
      (utf8 "K") (omega arith) (tt, (tt, tt)) refl

abbrev no_env : Platform (Unit {0})
no_env = record {
  unicode = bare;
  getenv = λ k. [];
  parse_float = λ bits s. record { value = tt; error = none };
  round32 = λ f. f;
}

abbrev slice_fields : Fields (Unit {0})
slice_fields = field (tags_of "hosts") (slice Kind.string []) end

slices_behind_nil_example :
    (parse_value
      (platform (utf8 "A_HOSTS") (utf8 "x,y"))
      (utf8 "A")
      (utf8 "A")
      (nil_ptr (struct slice_fields))).0
    ≡ nil_ptr (struct slice_fields)
slices_behind_nil_example =
    slices_behind_nil (platform (utf8 "A_HOSTS") (utf8 "x,y")) (utf8 "A") (utf8 "A") slice_fields tt

-- The flags of one set are those of the other without their shorthands.
abbrev IsUnshort : List (Flag (Unit {0})) → List (Flag (Unit {0})) → Type 0
IsUnshort s p = s ≡ map unshort p

collect-IsUnshort :
    (s p : List (Flag (Unit {0}))) (f : Flag (Unit {0}))
    → IsUnshort s p
    → Alike IsUnshort (added (collect s (unshort f))) (added (collect p f))
collect-IsUnshort s p f h = ap (λ t. t ++ unshort f ∷ []) h ∙ sym (map-append unshort p (f ∷ []))

parse_flag_struct-parse_pflag_struct_example :
    Alike IsUnshort
      (parse_flag_struct collect zero_port [])
      (parse_pflag_struct collect zero_port [])
parse_flag_struct-parse_pflag_struct_example =
    parse_flag_struct-parse_pflag_struct IsUnshort collect collect zero_port [] [] collect-IsUnshort
      refl

-- Out of range is clamped, and a text that is no number is 0.
clamped :
    SliceValue.set no_env Kind.int8 [] (utf8 "300,-300,x")
    ≡ num (pos 127) ∷ num (negsuc 127) ∷ num (pos 0) ∷ []
unfolding SliceValue.set split parse_int
clamped = refl
