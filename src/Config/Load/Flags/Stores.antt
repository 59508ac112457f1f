-- ===== src/Config/Load/Flags/Stores.antt =====
-- What is left in a field by the writes of a flag set.
use opendevops_codo_golang_s.Config.Value.{Fields, Scalar, Tags, Value, field, end, Kind, scalar}
use opendevops_codo_golang_s.Common.{
  ◌∷◌, ℕ, List, if◌then◌else◌, ◌≢◌, ◌==◌, ◌≡◌, [], some, arith, suc, zero, ap, refl, Bool-cases,
  ◌∙◌, inl, ==_iff, inr, Bool, Option, true, false,
}
use opendevops_codo_golang_s.Config.Load.Priority.{nth}
use opendevops_codo_golang_s.Config.Load.Flags.{
  Stored, one, elements, store_all, store_field, store_value,
}

-- The value that the last write to field i of the struct itself leaves, if there is one.
abbrev pub last_value : {F : Type 0} → ℕ → List (List ℕ × Stored F) → Scalar F → Scalar F
last_value i [] old = old
last_value i ((j ∷ [], one s) ∷ ws) old = last_value i ws (if j == i then s else old)
last_value i (w ∷ ws) old = last_value i ws old

module _ {F : Type 0} where
  nth-store_field_self :
      (i : ℕ) (path : List ℕ) (s : Stored F) (fs : Fields F) (tags : Tags) (v : Value F)
      → nth i fs ≡ some (tags, v)
      → nth i (store_field i path s fs) ≡ some (tags, store_value path s v)
  unfolding store_field
  nth-store_field_self i path s end tags v h = cc
  nth-store_field_self zero path s (field tags' w fs) tags v h = ground (arith, h)
  nth-store_field_self (suc i) path s (field tags' w fs) tags v h =
      nth-store_field_self i path s fs tags v h

  nth-store_field_other :
      (i j : ℕ) (path : List ℕ) (s : Stored F) (fs : Fields F)
      → j ≢ i
      → nth i (store_field j path s fs) ≡ nth i fs
  unfolding store_field
  nth-store_field_other i j path s end h = refl
  nth-store_field_other zero zero path s (field tags w fs) h = absurd (h refl)
  nth-store_field_other zero (suc j) path s (field tags w fs) h = refl
  nth-store_field_other (suc i) zero path s (field tags w fs) h = refl
  nth-store_field_other (suc i) (suc j) path s (field tags w fs) h =
      nth-store_field_other i j path s fs (λ e. h (ap suc e))

  scalar_kept :
      (i j : ℕ) (path : List ℕ) (s : Stored F) (fs : Fields F) (tags : Tags) (k : Kind)
      (old new : Scalar F)
      → nth i fs ≡ some (tags, scalar k old)
      → store_value path s (scalar k old) ≡ scalar k new
      → nth i (store_field j path s fs) ≡ some (tags, scalar k (if j == i then new else old))
  scalar_kept i j path s fs tags k old new h e = elim (Bool-cases (j == i)) [
    | inl same_field ↦
        let e' : j ≡ i = (==_iff j i).0 same_field in
        rw (same_field, e')
          (nth-store_field_self i path s fs tags (scalar k old) h ∙ ap (λ v. some (tags, v)) e)
    | inr other_field ↦
        rw other_field
          (nth-store_field_other i j path s fs (λ e'. ground (arith, (==_iff j i).1 e')) ∙ h)
  ]

  same_value :
      (b : Bool) (tags : Tags) (k : Kind) (old : Scalar F)
      → ◌≡◌ {A = Option (Tags × Value F)}
          (some (tags, scalar k (if b then old else old)))
          (some (tags, scalar k old))
  same_value true tags k old = refl
  same_value false tags k old = refl

  -- A scalar field of the struct has the value of the last write to it, and its old value where there is none.
  pub nth-store_all :
      (ws : List (List ℕ × Stored F)) (i : ℕ) (fs : Fields F) (tags : Tags) (k : Kind)
      (old : Scalar F)
      → nth i fs ≡ some (tags, scalar k old)
      → nth i (store_all ws fs) ≡ some (tags, scalar k (last_value i ws old))
  unfolding store_all store_value
  nth-store_all [] i fs tags k old h = h
  nth-store_all (([], s) ∷ ws) i fs tags k old h = nth-store_all ws i fs tags k old h
  nth-store_all ((j ∷ [], one s) ∷ ws) i fs tags k old h =
      nth-store_all ws i _ tags k _ (scalar_kept i j [] (one s) fs tags k old s h refl)
  nth-store_all ((j ∷ [], elements ss) ∷ ws) i fs tags k old h =
      nth-store_all ws i _ tags k old
        (scalar_kept i j [] (elements ss) fs tags k old old h refl ∙ same_value (j == i) tags k old)
  nth-store_all ((j ∷ l ∷ path, s) ∷ ws) i fs tags k old h =
      nth-store_all ws i _ tags k old
        (scalar_kept i j (l ∷ path) s fs tags k old old h refl ∙ same_value (j == i) tags k old)
