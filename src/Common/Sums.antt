-- ===== src/Common/Sums.antt =====
-- The two sides of a list of sums, and equations between appended lists.
use mathlib.Core.Path.{◌≡◌, refl, ap, ◌∙◌}
use mathlib.Core.Logic.{◌⊎◌, inl, inr}
use mathlib.Core.List.{List, [], ◌∷◌, ◌++◌, map, append_assoc}

module _ {A B : Type 0} where
  abbrev pub lefts : List (A ⊎ B) → List A
  lefts [] = []
  lefts (inl a ∷ xs) = a ∷ lefts xs
  lefts (inr b ∷ xs) = lefts xs

  abbrev pub rights : List (A ⊎ B) → List B
  rights [] = []
  rights (inl a ∷ xs) = rights xs
  rights (inr b ∷ xs) = b ∷ rights xs

  pub lefts-map-inl :
      (xs : List (A ⊎ B)) (more : List A) → lefts (xs ++ map inl more) ≡ lefts xs ++ more
  lefts-map-inl [] [] = refl
  lefts-map-inl [] (a ∷ more) = ap (λ t. a ∷ t) (lefts-map-inl [] more)
  lefts-map-inl (inl x ∷ xs) more = ap (λ t. x ∷ t) (lefts-map-inl xs more)
  lefts-map-inl (inr x ∷ xs) more = lefts-map-inl xs more

  pub lefts-map-inr : (xs : List (A ⊎ B)) (bs : List B) → lefts (xs ++ map inr bs) ≡ lefts xs
  lefts-map-inr [] [] = refl
  lefts-map-inr [] (b ∷ more) = lefts-map-inr [] more
  lefts-map-inr (inl x ∷ xs) more = ap (λ t. x ∷ t) (lefts-map-inr xs more)
  lefts-map-inr (inr x ∷ xs) more = lefts-map-inr xs more

  pub rights-map-inr :
      (xs : List (A ⊎ B)) (more : List B) → rights (xs ++ map inr more) ≡ rights xs ++ more
  rights-map-inr [] [] = refl
  rights-map-inr [] (b ∷ more) = ap (λ t. b ∷ t) (rights-map-inr [] more)
  rights-map-inr (inl x ∷ xs) more = rights-map-inr xs more
  rights-map-inr (inr x ∷ xs) more = ap (λ t. x ∷ t) (rights-map-inr xs more)

  pub rights-map-inl : (xs : List (A ⊎ B)) (more : List A) → rights (xs ++ map inl more) ≡ rights xs
  rights-map-inl [] [] = refl
  rights-map-inl [] (a ∷ more) = rights-map-inl [] more
  rights-map-inl (inl x ∷ xs) more = rights-map-inl xs more
  rights-map-inl (inr x ∷ xs) more = ap (λ t. x ∷ t) (rights-map-inl xs more)

pub shifted :
    {A : Type 0} {xs : List A} (ys zs rest : List A) → xs ≡ ys ++ rest → ys ≡ zs → xs ≡ zs ++ rest
shifted ys zs rest h e = h ∙ ap (λ l. l ++ rest) e

pub joined :
    {A : Type 0} {xs : List A} (ys zs more rest : List A)
    → xs ≡ ys ++ rest
    → ys ≡ zs ++ more
    → xs ≡ zs ++ (more ++ rest)
joined ys zs more rest h e = shifted ys (zs ++ more) rest h e ∙ append_assoc zs more rest
