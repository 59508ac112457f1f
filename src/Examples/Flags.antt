-- ===== src/Examples/Flags.antt =====
-- LoadConfig with a YAML file, the environment and a command line.
use opendevops_codo_golang_s.Config.Flags.Pflag.{parse_pflag_struct, p_flag_names, p_has_var}
use opendevops_codo_golang_s.Config.Flags.Names.{HasFlag, parse_flag_struct-HasFlag}
use opendevops_codo_golang_s.Config.Flags.Paths.{AllPlaced, parse_flag_struct-AllPlaced}
use opendevops_codo_golang_s.Config.Env.Codec.{convert}
use opendevops_codo_golang_s.Go.Number.{syntax, parse_uint}
use opendevops_codo_golang_s.Config.Load.Priority.{nth}
use opendevops_codo_golang_s.Config.Env.{
  load_env, parse_fields, parse_value, set_field, env_key, env_key_prefix,
}
use opendevops_codo_golang_s.Go.Text.{bare, to_upper, split, join}
use opendevops_codo_golang_s.Common.{
  ◌∷◌, List, some, utf8, ℕ, Bytes, [], if◌then◌else◌, none, ◌≡◌, Bool, refl, same, false, ◌||◌,
  arith,
}
use opendevops_codo_golang_s.Config.Value.{
  Platform, Fields, Tags, to, field, scalar, Kind, nat, end, class, str, struct,
}
use opendevops_codo_golang_s.Config.Load.{
  YamlLib, load_config, with_yaml, with_env, with_flag, load_yaml, with_pflag,
}
use opendevops_codo_golang_s.Config.Load.Flags.{
  FlagLib, Stored, one, load_flag, add_to, store_target, store_all, store_field, store_value,
  load_pflag,
}
use opendevops_codo_golang_s.Config.Load.Flags.Stores.{last_value}
use opendevops_codo_golang_s.Config.Load.Flags.Order.{flag_over_env}
use opendevops_codo_golang_s.Config.Flags.{Flag, parse_flag_struct, registered, flag_names, has_var}
use opendevops_codo_golang_s.Config.Flags.Same.{collect}

abbrev os : Platform (Unit {0})
os = record {
  unicode = bare;
  getenv = λ k. if same k (utf8 "APP_PORT") then utf8 "8080" else [];
  parse_float = λ bits s. record { value = tt; error = some syntax };
  round32 = λ f. f;
}

abbrev port_tags : Tags
port_tags = record {
  name = utf8 "port";
  yaml = [];
  json = [];
  env = [];
  flag = utf8 "port|p";
  usage = [];
}

abbrev on_port : ℕ → Fields (Unit {0})
on_port n = field port_tags (scalar Kind.uint (nat n)) end

abbrev yaml_at_80 : YamlLib (Unit {0}) (Unit {0}) (Unit {0})
yaml_at_80 = record {
  open_file = λ path. (some [], tt);
  decode = λ f. (some tt, tt);
  marshal = λ y. ([], none);
  unmarshal = λ bs t. (to (on_port 80), none);
}

-- Flag sets that give a number to every flag whose name is among the arguments.
abbrev named : List Bytes → Bytes → Bool
named [] name = false
named (a ∷ rest) name = same a name || named rest name

abbrev writes : ℕ → List (Flag (Unit {0})) → List Bytes → List (List ℕ × Stored (Unit {0}))
writes n [] args = []
writes n (f ∷ fs) args =
    let rest = writes n fs args in if named args f.name then (f.path, one (nat n)) ∷ rest else rest

abbrev toy_flags : ℕ → FlagLib (Unit {0}) (Unit {0}) (List (Flag (Unit {0})))
toy_flags n = record { add = collect; parse = λ s args. (writes n s args, none) }

abbrev arguments : List Bytes
arguments = utf8 "port" ∷ []

read_yaml : load_yaml yaml_at_80 (utf8 "c.yaml") (to (on_port 0)) ≡ (to (on_port 80), none)
unfolding load_yaml
read_yaml = refl

loaded_from_all :
    load_config os yaml_at_80
      (load_flag (toy_flags 9000))
      (load_pflag (toy_flags 9100))
      (with_yaml (utf8 "c.yaml")
        ∷ with_env (utf8 "APP")
        ∷ with_flag [] arguments
        ∷ with_pflag [] arguments
        ∷ [])
      (to (on_port 0))
    ≡ (to (on_port 9100), none)
unfolding load_config load_yaml with_yaml with_env with_flag with_pflag load_env parse_fields
    parse_value set_field class env_key_prefix env_key to_upper convert parse_uint load_flag
    load_pflag parse_flag_struct parse_pflag_struct flag_names p_flag_names p_has_var split has_var
    store_target store_all store_field store_value
loaded_from_all = refl

flag_over_env_example :
    (gs hs : Fields (Unit {0})) × (s p : List (Flag (Unit {0}))) × (parse_flag_struct
        (add_to (toy_flags 9000))
        (to gs)
        (some [])
      ≡ registered (some s))
    × (parse_pflag_struct (add_to (toy_flags 9100)) (to hs) (some []) ≡ registered (some p))
    × (let from_env = (set_field os Kind.uint (nat 80) (env_key os (utf8 "APP") port_tags)).0 in
        let from_flags = last_value 0 (writes 9000 s arguments) from_env in
        (nth 0 gs ≡ some (port_tags, scalar Kind.uint from_env))
        × (nth 0 hs ≡ some (port_tags, scalar Kind.uint from_flags))
        × (nth 0 (on_port 9100)
            ≡ some
                (port_tags, scalar Kind.uint (last_value 0 (writes 9100 p arguments) from_flags))))
flag_over_env_example =
    flag_over_env os yaml_at_80 (toy_flags 9000) (toy_flags 9100) (utf8 "c.yaml") (utf8 "APP") []
      arguments [] arguments (to (on_port 0)) (on_port 80) (on_port 9100) read_yaml loaded_from_all
      0 port_tags Kind.uint (nat 80) refl

-- A port beside a struct with a name.
abbrev nested : Fields (Unit {0})
nested = field port_tags (scalar Kind.uint (nat 80)) (
    field (record port_tags { flag = [] })
      (struct (field (record port_tags { flag = utf8 "name" }) (scalar Kind.string (str [])) end))
      end)

abbrev nested_flags : List (Flag (Unit {0}))
nested_flags =
    record {
      name = utf8 "port";
      short = [];
      usage = [];
      path = 0 ∷ [];
      default = scalar Kind.uint (nat 80);
    }
    ∷ record {
      name = utf8 "name";
      short = [];
      usage = [];
      path = 1 ∷ 0 ∷ [];
      default = scalar Kind.string (str []);
    }
    ∷ []

registers_nested : parse_flag_struct collect (to nested) [] ≡ registered nested_flags
unfolding parse_flag_struct flag_names split has_var
registers_nested = refl

parse_flag_struct-AllPlaced_example :
    AllPlaced (struct nested) (parse_flag_struct collect (to nested) [])
    × AllPlaced (struct nested) (parse_pflag_struct collect (to nested) [])
parse_flag_struct-AllPlaced_example = parse_flag_struct-AllPlaced nested

port_tag : port_tags.flag ≡ join b'|' (utf8 "port" ∷ utf8 "p" ∷ [])
unfolding join
port_tag = refl

parse_flag_struct-HasFlag_example :
    HasFlag (utf8 "port") (0 ∷ []) (parse_flag_struct collect (to nested) [])
    × HasFlag (utf8 "port") (0 ∷ []) (parse_pflag_struct collect (to nested) [])
parse_flag_struct-HasFlag_example =
    parse_flag_struct-HasFlag nested 0 port_tags (scalar Kind.uint (nat 80)) [] (utf8 "p" ∷ [])
      (utf8 "port") refl tt port_tag (omega arith) (omega arith) (omega arith)
