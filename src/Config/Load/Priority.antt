-- ===== src/Config/Load/Priority.antt =====
-- The environment comes before the YAML file (config/config.go).
use opendevops_codo_golang_s.Config.Env.RoundTrip.{HasPrint, print, set_field-print}
use opendevops_codo_golang_s.Config.Env.Range.{Fits}
use opendevops_codo_golang_s.Config.Load.{
  YamlLib, Loader, load_yaml, load_config, with_yaml, with_env, go_on, of_env,
}
use opendevops_codo_golang_s.Config.Env.{
  parse_fields, parse_value, env_key_prefix, env_key, continue, load_env, set_field,
}
use opendevops_codo_golang_s.Config.Value.{
  Platform, Fields, Tags, Value, Target, Kind, field, ok, Scalar, end, to, Result, err, scalar,
  class,
}
use opendevops_codo_golang_s.Common.{
  ℕ, Bytes, Option, Bool, List, none, ◌≡◌, some, suc, zero, arith, ◌∷◌, [], sym, ap, refl, false,
}

abbrev pub nth : {F : Type 0} → ℕ → Fields F → Option (Tags × Value F)
nth i end = none
nth zero (field tags v fs) = some (tags, v)
nth (suc i) (field tags v fs) = nth i fs

continue-ok :
    {F : Type 0} (r : Result Bool) (fs : Fields F) (rest : Fields F × Result Bool) (b : Bool)
    → (continue r fs rest).1 ≡ ok b
    → (c : Bool) × (rest ≡ ((continue r fs rest).0, ok c))
continue-ok (ok a) fs (gs, ok c) b h = (c, refl)
continue-ok (ok a) fs (gs, err e) b h = cc
continue-ok (err e) fs rest b h = cc

module _ {F : Type 0} (os : Platform F) where
  -- A walk that made no error has treated each field by itself.
  pub nth-parse_fields :
      (prefix : Bytes) (fs fs' : Fields F) (b : Bool) (i : ℕ) (tags : Tags) (v : Value F)
      → parse_fields os prefix fs ≡ (fs', ok b)
      → nth i fs ≡ some (tags, v)
      → nth i fs'
        ≡ some (tags, (parse_value os (env_key_prefix os prefix tags) (env_key os prefix tags) v).0)
  unfolding parse_fields
  nth-parse_fields prefix end fs' b i tags v h at_i = cc
  nth-parse_fields prefix (field tags' v' fs) fs' b zero tags v h at_i = ground arith
  nth-parse_fields prefix (field tags' v' fs) fs' b (suc i) tags v h at_i =
      let here = (parse_value os (env_key_prefix os prefix tags') (env_key os prefix tags') v').1 in
      let (c, rest) = continue-ok here fs (parse_fields os prefix fs) b (cc) in
      let e : fs'
          ≡ field tags'
              (parse_value os (env_key_prefix os prefix tags') (env_key os prefix tags') v').0
              (continue here fs (parse_fields os prefix fs)).0 =
        cc in
      rw e (
        nth-parse_fields prefix fs (continue here fs (parse_fields os prefix fs)).0 c i tags v rest
          at_i)

of_env-none :
    {F E : Type 0} (p : Fields F × Result Bool) (fs' : Fields F)
    → go_on {E = E} (of_env (to p.0, p.1)) (λ t. (t, none)) ≡ (to fs', none)
    → (b : Bool) × (p ≡ (fs', ok b))
of_env-none (gs, ok b) fs' h = (b, cc)
of_env-none (gs, err e) fs' h = cc

set_field_unset :
    {F : Type 0} (os : Platform F) (k : Kind) (old : Scalar F) (key : Bytes)
    → os.getenv key ≡ []
    → set_field os k old key ≡ (old, ok false)
unfolding set_field
set_field_unset os k old key h = ground (arith, h)

module _ {F E Y S P : Type 0} (os : Platform F) (lib : YamlLib F E Y)
    (load_flag : Option S → List Bytes → Loader F E)
    (load_pflag : Option P → List Bytes → Loader F E) (path prefix : Bytes) (t : Target F)
    (fs fs' : Fields F) (i : ℕ) (tags : Tags) (k : Kind) (old : Scalar F)
    (from_yaml : load_yaml lib path t ≡ (to fs, none))
    (loaded : load_config os lib load_flag load_pflag (with_yaml path ∷ with_env prefix ∷ []) t
      ≡ (to fs', none))
    (at_i : nth i fs ≡ some (tags, scalar k old)) where
  parsed : (b : Bool) × (parse_fields os prefix fs ≡ (fs', ok b))
  unfolding load_config with_yaml with_env load_env
  parsed = of_env-none (parse_fields os prefix fs) fs' (rw from_yaml at loaded)

  value_read : nth i fs' ≡ some (tags, scalar k (set_field os k old (env_key os prefix tags)).0)
  unfolding parse_value
  value_read =
      let (b, h) = parsed in nth-parse_fields os prefix fs fs' b i tags (scalar k old) h at_i

  -- After a load from a YAML file and the environment that succeeds, a field of the struct that
  -- holds a number or truth value has the value whose print its variable holds, if that value fits
  -- the type of the field, whatever the file said.
  pub env_over_yaml :
      (v : Scalar F)
      → Fits (class k) v
      → HasPrint v
      → os.getenv (env_key os prefix tags) ≡ print v
      → nth i fs' ≡ some (tags, scalar k v)
  env_over_yaml v fits p h =
      rw
        (sym (
          ap (λ (r : Scalar F × Result Bool). r.0)
            (set_field-print os k old v (env_key os prefix tags) fits p h)))
        value_read

  -- After a load from a YAML file and the environment that succeeds, a scalar field whose variable
  -- is not set has the value that the YAML file left in it.
  yaml_kept : os.getenv (env_key os prefix tags) ≡ [] → nth i fs' ≡ some (tags, scalar k old)
  yaml_kept h =
      rw
        (sym (
          ap (λ (r : Scalar F × Result Bool). r.0)
            (set_field_unset os k old (env_key os prefix tags) h)))
        value_read
