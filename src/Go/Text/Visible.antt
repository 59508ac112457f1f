-- ===== src/Go/Text/Visible.antt =====
-- Texts of visible ASCII characters, which strings.TrimSpace leaves alone.
use opendevops_codo_golang_s.Common.{
  ℕ, ◌≡◌, refl, ◌≤◌, ◌<◌, true, [], ◌∷◌, ◌++◌, arith, Bytes, All, append-nil,
}
use opendevops_codo_golang_s.Go.Text.{reverse_onto, trim_left, is_ascii, trim_space, Unicode}

abbrev pub IsVisible : ℕ → Type 0
IsVisible c = (33 ≤ c) × (c < 127)

reverse_onto-IsVisible :
    (s t : Bytes) → All IsVisible s → All IsVisible t → All IsVisible (reverse_onto s t)
unfolding reverse_onto
reverse_onto-IsVisible [] t _ ht = ht
reverse_onto-IsVisible (c ∷ s) t (hc, hs) ht = reverse_onto-IsVisible s (c ∷ t) hs (hc, ht)

reverse_onto-reverse_onto :
    (s t u : Bytes) → reverse_onto (reverse_onto s t) u ≡ reverse_onto t (s ++ u)
unfolding reverse_onto
reverse_onto-reverse_onto [] t u = refl
reverse_onto-reverse_onto (c ∷ s) t u = reverse_onto-reverse_onto s (c ∷ t) u

trim_left-IsVisible : (s : Bytes) → All IsVisible s → trim_left s ≡ s
unfolding trim_left
trim_left-IsVisible [] h = refl
trim_left-IsVisible (c ∷ s) (hc, hs) = ground arith

is_ascii-IsVisible : (s : Bytes) → All IsVisible s → is_ascii s ≡ true
unfolding is_ascii
is_ascii-IsVisible [] h = refl
is_ascii-IsVisible (c ∷ s) (hc, hs) = ground (arith, is_ascii-IsVisible s hs)

pub trim_space-IsVisible : (u : Unicode) (s : Bytes) → All IsVisible s → trim_space u s ≡ s
unfolding trim_space
trim_space-IsVisible u s h =
    rw
      (
        is_ascii-IsVisible s h,
        trim_left-IsVisible s h,
        trim_left-IsVisible (reverse_onto s []) (reverse_onto-IsVisible s [] h tt),
        reverse_onto-reverse_onto s [] [],
      )
      (unfold reverse_onto in append-nil s)
