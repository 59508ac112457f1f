-- ===== src/Config/Load/Flags/Order.antt =====
-- The order of the sources (config/config.go): the command lines come before the environment, and the environment
-- before the YAML file.
use opendevops_codo_golang_s.Config.Flags.Pflag.{parse_pflag_struct}
use opendevops_codo_golang_s.Config.Env.{load_env, parse_fields, parse_value, set_field, env_key}
use opendevops_codo_golang_s.Config.Load.{
  YamlLib, Loader, go_on, load_yaml, of_env, load_config, with_yaml, with_env, with_flag,
  with_pflag,
}
use opendevops_codo_golang_s.Config.Flags.{
  Registered, registered, refused, panicked, parse_flag_struct,
}
use opendevops_codo_golang_s.Config.Value.{
  Fields, to, Platform, Target, Result, ok, err, Tags, Kind, Scalar, scalar,
}
use opendevops_codo_golang_s.Common.{
  ◌∷◌, List, Bytes, ℕ, Option, ◌≡◌, none, some, refl, Bool, [], ap, ◌∙◌,
}
use opendevops_codo_golang_s.Config.Load.Priority.{nth, nth-parse_fields}
use opendevops_codo_golang_s.Config.Load.Flags.{
  FlagLib, Stored, load_flag, load_pflag, parsed, of_parse, store_all, add_to, store_target,
}
use opendevops_codo_golang_s.Config.Load.Flags.Stores.{last_value, nth-store_all}

-- A command line that is read without an error, and what is read behind it.
module _ {F E S : Type 0} (lib : FlagLib F E S) (args : List Bytes) (gs : Fields F)
    (rest : Loader F E) (t' : Target F) where
  of_parse-go_on :
      (p : List (List ℕ × Stored F) × Option E)
      → go_on (of_parse lib (to gs) p) rest ≡ (t', none)
      → rest (to (store_all p.0 gs)) ≡ (t', none)
  unfolding store_target
  of_parse-go_on (ws, none) h = h
  of_parse-go_on (ws, some e) h = absurd (cc)

  parsed-go_on :
      (r : Registered (Option S))
      → go_on (parsed lib args (to gs) r) rest ≡ (t', none)
      → (s : S) × (r ≡ registered (some s))
        × (rest (to (store_all (lib.parse s args).0 gs)) ≡ (t', none))
  parsed-go_on (registered none) h = absurd (cc)
  parsed-go_on (registered (some s)) h = (s, refl, of_parse-go_on (lib.parse s args) h)
  parsed-go_on (refused s e) h = absurd (cc)
  parsed-go_on panicked h = absurd (cc)

-- An environment that is read without an error.
of_env-go_on :
    {F E : Type 0} (p : Fields F × Result Bool) (rest : Loader F E) (t' : Target F)
    → go_on (of_env (to p.0, p.1)) rest ≡ (t', none)
    → (b : Bool) × (p ≡ (p.0, ok b)) × (rest (to p.0) ≡ (t', none))
of_env-go_on (gs, ok b) rest t' h = (b, refl, h)
of_env-go_on (gs, err e) rest t' h = absurd (cc)

module _ {F E Y S P : Type 0} (os : Platform F) (yaml : YamlLib F E Y) (lib : FlagLib F E S)
    (plib : FlagLib F E P) (path prefix : Bytes) (set : S) (args : List Bytes) (pset : P)
    (pargs : List Bytes) (t : Target F) (fs fs' : Fields F)
    (from_yaml : load_yaml yaml path t ≡ (to fs, none))
    (loaded : load_config os yaml
        (load_flag lib)
        (load_pflag plib)
        (with_yaml path ∷ with_env prefix ∷ with_flag set args ∷ with_pflag pset pargs ∷ [])
        t
      ≡ (to fs', none)) where
  -- What the loaders do in turn.
  in_turn :
      (gs : Fields F) × (b : Bool) × (s : S) × (p : P) × (parse_fields os prefix fs ≡ (gs, ok b))
      × (parse_flag_struct (add_to lib) (to gs) (some set) ≡ registered (some s))
      × (parse_pflag_struct (add_to plib) (to (store_all (lib.parse s args).0 gs)) (some pset)
          ≡ registered (some p))
      × (fs' ≡ store_all (plib.parse p pargs).0 (store_all (lib.parse s args).0 gs))
  unfolding load_config with_yaml with_env with_flag with_pflag load_env load_flag load_pflag
  in_turn =
      let pf = parse_fields os prefix fs in
      let last : Loader F E = λ t. (t, none) in
      let pflags : Loader F E =
        λ t. go_on (parsed plib pargs t (parse_pflag_struct (add_to plib) t (some pset))) last in
      let flags : Loader F E =
        λ t. go_on (parsed lib args t (parse_flag_struct (add_to lib) t (some set))) pflags in
      let (b, eb, h1) = of_env-go_on pf flags (to fs') (rw from_yaml at loaded) in
      let (s, es, h2) =
        parsed-go_on lib args pf.0 pflags (to fs')
          (parse_flag_struct (add_to lib) (to pf.0) (some set)) h1 in
      let hs = store_all (lib.parse s args).0 pf.0 in
      let (p, ep, h3) =
        parsed-go_on plib pargs hs last (to fs')
          (parse_pflag_struct (add_to plib) (to hs) (some pset)) h2 in
      (pf.0, b, s, p, eb, es, ep, cc)

  -- After a load from a YAML file, the environment, and the command lines of both flag packages that succeeds, a
  -- scalar field of the struct has the value that the pflag set wrote to it last, where it wrote one; else the one
  -- that the flag set wrote to it last; else the value that its environment variable gives, where that is set; else
  -- the value that the YAML file left in it. The flags of each set are those of the struct as the sources before it
  -- left it.
  pub flag_over_env :
      (i : ℕ) (tags : Tags) (k : Kind) (old : Scalar F)
      → nth i fs ≡ some (tags, scalar k old)
      → (gs hs : Fields F) × (s : S) × (p : P) × (parse_flag_struct (add_to lib) (to gs) (some set)
          ≡ registered (some s))
        × (parse_pflag_struct (add_to plib) (to hs) (some pset) ≡ registered (some p))
        × (let from_env = (set_field os k old (env_key os prefix tags)).0 in
            let from_flags = last_value i (lib.parse s args).0 from_env in
            (nth i gs ≡ some (tags, scalar k from_env))
            × (nth i hs ≡ some (tags, scalar k from_flags))
            × (nth i fs' ≡ some (tags, scalar k (last_value i (plib.parse p pargs).0 from_flags))))
  unfolding parse_value
  flag_over_env i tags k old at_i =
      let (gs, b, s, p, env, flags, pflags, stored) = in_turn in
      let at_env = nth-parse_fields os prefix fs gs b i tags (scalar k old) env at_i in
      let hs = store_all (lib.parse s args).0 gs in
      let at_flags = nth-store_all (lib.parse s args).0 i gs tags k _ at_env in
      (
        gs,
        hs,
        s,
        p,
        flags,
        pflags,
        (
          at_env,
          at_flags,
          ap (nth i) stored ∙ nth-store_all (plib.parse p pargs).0 i hs tags k _ at_flags,
        ),
      )
