-- ===== src/Config/Flags/Same.antt =====
-- parseFlagStruct and parsePFlagStruct agree (config/config.go).
use opendevops_codo_golang_s.Config.Flags.Pflag.{parse_pflag_struct}
use opendevops_codo_golang_s.Config.Flags.Either.{
  either_register_field, either_walk_value, either_register, either_walk_fields,
  parse_flag_struct-to, parse_pflag_struct-to,
}
use opendevops_codo_golang_s.Config.Value.{
  Tags, Target, Value, to, struct, Fields, field, end, scalar, not_pointer, slice, nil_pointer,
  nil_ptr, ptr,
}
use opendevops_codo_golang_s.Common.{
  List, [], Option, some, ◌++◌, ◌≡◌, ℕ, ◌∷◌, false, true, refl, ◌+◌, sym, Bool-cases, Bytes, subst,
  inl, inr,
}
use opendevops_codo_golang_s.Config.Flags.{
  Flag, Registered, registered, refused, panicked, after, parse_flag_struct, added, supported,
}

-- A flag set that takes every flag, as the list of what it was given.
abbrev pub collect : {F : Type 0} → List (Flag F) → Flag F → Option (List (Flag F))
collect fs f = some (fs ++ f ∷ [])

abbrev pub unshort : {F : Type 0} → Flag F → Flag F
unshort f = record f { short = [] }

module _ {S P : Type 0} (R : S → P → Type 0) where
  -- Both ways of registering end alike: with flag sets that are related, and with the same error or in a panic.
  abbrev pub Alike : Registered S → Registered P → Type 0
  Alike (registered s) (registered p) = R s p
  Alike (refused s e) (refused p e') = R s p × (e ≡ e')
  Alike panicked panicked = Unit
  Alike _ _ = ⊥

  after-Alike :
      (x : Registered S) (y : Registered P) (f : S → Registered S) (g : P → Registered P)
      → Alike x y
      → ((s : S) (p : P) → R s p → Alike (f s) (g p))
      → Alike (after x f) (after y g)
  after-Alike (registered s) (registered p) f g h k = k s p h
  after-Alike (registered s) (refused p e) f g h k = absurd h
  after-Alike (registered s) panicked f g h k = absurd h
  after-Alike (refused s e) (registered p) f g h k = absurd h
  after-Alike (refused s e) (refused p e') f g h k = h
  after-Alike (refused s e) panicked f g h k = absurd h
  after-Alike panicked (registered p) f g h k = absurd h
  after-Alike panicked (refused p e) f g h k = absurd h
  after-Alike panicked panicked f g h k = tt

  module _ {F : Type 0} (add : S → Flag F → Option S) (padd : P → Flag F → Option P)
      (alike : (s : S) (p : P) (f : Flag F)
        → R s p
        → Alike (added (add s (unshort f))) (added (padd p f))) where
    register-Alike :
        (tags : Tags) (v : Value F) (path : List ℕ) (s : S) (p : P)
        → R s p
        → Alike (either_register false add tags v path s) (either_register true padd tags v path p)
    unfolding either_register
    register-Alike tags v path s p h = elim (Bool-cases (supported v)) [
      | inl e ↦ rw e (alike s p _ h)
      | inr e ↦ rw e (h, refl)
    ]

    field-Alike :
        (tags : Tags) (v : Value F) (path : List ℕ) (s : S) (p : P)
        → R s p
        → Alike
            (either_register_field false add tags v path s)
            (either_register_field true padd tags v path p)
    unfolding either_register_field
    field-Alike tags v path s p h = by_flag tags.flag _ _ (register-Alike tags v path s p h)
      where
        by_flag :
            (flag : Bytes) (x : Registered S) (y : Registered P)
            → Alike x y
            → Alike
                (elim flag [ [] ↦ registered s | _ ↦ x ])
                (elim flag [ [] ↦ registered p | _ ↦ y ])
        by_flag [] x y k = h
        by_flag (c ∷ cs) x y k = k

    mutual
      unfolding either_walk_value either_walk_fields

      value-Alike :
          (tags : Tags) (v : Value F) (path : List ℕ) (s : S) (p : P)
          → R s p
          → Alike
              (either_walk_value false add tags v path s)
              (either_walk_value true padd tags v path p)
      value-Alike tags (struct gs) path s p h = fields-Alike gs path 0 s p h
      value-Alike tags (scalar k x) path s p h = field-Alike tags (scalar k x) path s p h
      value-Alike tags (slice k xs) path s p h = field-Alike tags (slice k xs) path s p h
      value-Alike tags (nil_ptr v) path s p h = field-Alike tags (nil_ptr v) path s p h
      value-Alike tags (ptr v) path s p h = field-Alike tags (ptr v) path s p h

      fields-Alike :
          (gs : Fields F) (path : List ℕ) (i : ℕ) (s : S) (p : P)
          → R s p
          → Alike
              (either_walk_fields false add gs path i s)
              (either_walk_fields true padd gs path i p)
      fields-Alike end path i s p h = h
      fields-Alike (field tags v gs) path i s p h =
          after-Alike (either_walk_value false add tags v (path ++ i ∷ []) s)
            (either_walk_value true padd tags v (path ++ i ∷ []) p)
            (λ s'. either_walk_fields false add gs path (i + 1) s')
            (λ p'. either_walk_fields true padd gs path (i + 1) p')
            (value-Alike tags v (path ++ i ∷ []) s p h)
            (λ s' p' h'. fields-Alike gs path (i + 1) s' p' h')

-- Over two flag sets with a relation that registering any flag keeps, where the set of package flag is given the
-- flag without its shorthand, and where both sets panic on the same flags: from related sets on, parseFlagStruct and
-- parsePFlagStruct end alike on every target, with related sets, at the same error, or both in a panic.
pub parse_flag_struct-parse_pflag_struct :
    {F S P : Type 0} (R : S → P → Type 0) (add : S → Flag F → Option S)
    (padd : P → Flag F → Option P) (t : Target F) (s : S) (p : P)
    → ((s : S) (p : P) (f : Flag F)
        → R s p
        → Alike R (added (add s (unshort f))) (added (padd p f)))
    → R s p
    → Alike R (parse_flag_struct add t s) (parse_pflag_struct padd t p)
unfolding parse_flag_struct parse_pflag_struct
parse_flag_struct-parse_pflag_struct R add padd (to gs) s p alike h =
    subst (λ x. Alike R x (parse_pflag_struct padd (to gs) p)) (sym (parse_flag_struct-to add gs s))
      (subst (Alike R (either_walk_fields false add gs [] 0 s))
        (sym (parse_pflag_struct-to padd gs p)) (fields-Alike R add padd alike gs [] 0 s p h))
parse_flag_struct-parse_pflag_struct R add padd not_pointer s p alike h = (h, refl)
parse_flag_struct-parse_pflag_struct R add padd nil_pointer s p alike h = (h, refl)
