-- ===== src/Config/Load.antt =====
-- LoadConfig, LoadYaml and the options (config/config.go). The flag packages and the YAML and JSON
-- libraries are parameters.
pub mod Priority
pub mod Flags
use opendevops_codo_golang_s.Config.Env.{load_env}
use opendevops_codo_golang_s.Common.{
  Bool, Bytes, List, true, Option, none, some, utf8, ◌∷◌, [], false,
}
use opendevops_codo_golang_s.Config.Value.{ConfigError, Platform, Target, Result, ok, err}

-- What can stop LoadConfig; E is the error type of the libraries.
pub data LoadError (E : Type 0) : Type 0 where
  library : E → LoadError E
  config : ConfigError → LoadError E
  -- A panic of a flag set.
  panic : LoadError E

-- A loader changes the target and may fail: what it has set before the error stays set.
abbrev pub Loader : Type 0 → Type 0 → Type 0
Loader F E = Target F → Target F × Option (LoadError E)

-- `if enabled { err := load(dst); if err != nil { return err } }`, and then the rest.
abbrev pub go_on :
    {F E : Type 0} → Target F × Option (LoadError E) → Loader F E → Target F × Option (LoadError E)
go_on (t, none) rest = rest t
go_on (t, some e) rest = (t, some e)

abbrev when_then : {F E : Type 0} → Bool → Loader F E → Loader F E → Loader F E
when_then true load rest t = go_on (load t) rest
when_then false load rest t = rest t

pub record ConfigOptions (S P : Type 0) : Type 0 where
  pub load_from_env : Bool
  pub env_prefix : Bytes
  pub load_from_yaml : Bool
  pub yaml_path : Bytes
  pub load_from_flag : Bool
  pub flag_set : Option S
  pub flag_args : List Bytes
  pub load_from_pflag : Bool
  pub pflag_set : Option P
  pub pflag_args : List Bytes

-- os.Open with yaml.Decode (`decode`), Marshal and Unmarshal of config.go on the decoded map.
pub record YamlLib (F E Y : Type 0) : Type 0 where
  pub open_file : Bytes → Option Bytes × E
  pub decode : Bytes → Option Y × E
  pub marshal : Y → Bytes × Option E
  pub unmarshal : Bytes → Target F → Target F × Option E

module _ {S P : Type 0} where
  unfoldable default_config_options : ConfigOptions S P
  default_config_options = record {
    load_from_env = true;
    env_prefix = utf8 "CODO";
    load_from_yaml = false;
    yaml_path = [];
    load_from_flag = false;
    flag_set = none;
    flag_args = [];
    load_from_pflag = false;
    pflag_set = none;
    pflag_args = [];
  }

  unfoldable pub with_env : Bytes → ConfigOptions S P → ConfigOptions S P
  with_env prefix c = record c { load_from_env = true; env_prefix = prefix }

  unfoldable pub with_yaml : Bytes → ConfigOptions S P → ConfigOptions S P
  with_yaml filepath c = record c { load_from_yaml = true; yaml_path = filepath }

  unfoldable pub with_flag : S → List Bytes → ConfigOptions S P → ConfigOptions S P
  with_flag set args c = record c { load_from_flag = true; flag_set = some set; flag_args = args }

  unfoldable pub with_pflag : P → List Bytes → ConfigOptions S P → ConfigOptions S P
  with_pflag set args c = record c {
    load_from_pflag = true;
    pflag_set = some set;
    pflag_args = args;
  }

  unfoldable apply_options :
      List (ConfigOptions S P → ConfigOptions S P) → ConfigOptions S P → ConfigOptions S P
  apply_options [] c = c
  apply_options (opt ∷ opts) c = apply_options opts (opt c)

abbrev of_library : {F E : Type 0} → Target F × Option E → Target F × Option (LoadError E)
of_library (t, none) = (t, none)
of_library (t, some e) = (t, some (library e))

abbrev of_env : {F E : Type 0} → Target F × Result Bool → Target F × Option (LoadError E)
of_env (t, ok b) = (t, none)
of_env (t, err e) = (t, some (config e))

-- The error of Marshal is dropped: what it returned beside the error is unmarshalled.
unfoldable pub load_yaml : {F E Y : Type 0} → YamlLib F E Y → Bytes → Loader F E
load_yaml lib filepath t = elim (lib.open_file filepath).0 [
  | none ↦ (t, some (library (lib.open_file filepath).1))
  | some f ↦ elim (lib.decode f).0 [
    | none ↦ (t, some (library (lib.decode f).1))
    | some dst ↦ of_library (lib.unmarshal (lib.marshal dst).0 t)
  ]
]

module _ {F E Y S P : Type 0} (os : Platform F) (lib : YamlLib F E Y)
    (load_flag : Option S → List Bytes → Loader F E)
    (load_pflag : Option P → List Bytes → Loader F E) where
  -- LoadConfig behind its options.
  unfoldable load_with : ConfigOptions S P → Loader F E
  load_with c = when_then c.load_from_yaml (load_yaml lib c.yaml_path) (
      when_then c.load_from_env (λ t. of_env (load_env os c.env_prefix t))
        (when_then c.load_from_flag (load_flag c.flag_set c.flag_args)
          (when_then c.load_from_pflag (load_pflag c.pflag_set c.pflag_args) (λ t. (t, none)))))

  unfoldable pub load_config : List (ConfigOptions S P → ConfigOptions S P) → Loader F E
  unfolding load_with default_config_options apply_options
  load_config opts = load_with (apply_options opts default_config_options)
