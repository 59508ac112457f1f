-- ===== src/Go/Text.antt =====
-- Package strings: Split, Join, HasPrefix, HasSuffix, TrimSpace, ToUpper. The two that fold case or
-- trim take Go's ASCII path here; the Unicode tables that the other path reads are a parameter.
pub mod Visible
use opendevops_codo_golang_s.Common.{
  ℕ, ◌-◌, ◌≡◌, ◌≢◌, refl, ap, Bool, true, false, ◌&&◌, ◌||◌, List, [], ◌∷◌, ◌++◌, map, arith, ltb,
  leb, ◌==◌, if◌then◌else◌, Bytes, All, append-nil, Bool-cases, inl, inr,
}

cons_head : ℕ → List Bytes → List Bytes
cons_head c [] = (c ∷ []) ∷ []
cons_head c (p ∷ ps) = (c ∷ p) ∷ ps

-- strings.Split(s, sep) for a separator of one byte.
unfoldable pub split : ℕ → Bytes → List Bytes
unfolding cons_head
split sep [] = [] ∷ []
split sep (c ∷ s) = let rest = split sep s in if c == sep then [] ∷ rest else cons_head c rest

-- strings.Join(parts, sep)
unfoldable pub join : ℕ → List Bytes → Bytes
join sep [] = []
join sep (p ∷ []) = p
join sep (p ∷ q ∷ ps) = p ++ (sep ∷ join sep (q ∷ ps))

abbrev pub Lacks : ℕ → Bytes → Type 0
Lacks b = All (λ c. c ≢ b)

split_at_sep : (sep : ℕ) (p s : Bytes) → Lacks sep p → split sep (p ++ (sep ∷ s)) ≡ p ∷ split sep s
unfolding split
split_at_sep sep [] s h = ground arith
split_at_sep sep (c ∷ p) s (hc, hp) = ground (arith, split_at_sep sep p s hp)

split-Lacks : (sep : ℕ) (p : Bytes) → Lacks sep p → split sep p ≡ p ∷ []
unfolding split
split-Lacks sep [] h = refl
split-Lacks sep (c ∷ p) (hc, hp) = ground (arith, split-Lacks sep p hp)

-- Splitting a join gives the parts back, if there is one and none holds the separator.
pub split-join :
    (sep : ℕ) (p : Bytes) (ps : List Bytes)
    → Lacks sep p
    → All (Lacks sep) ps
    → split sep (join sep (p ∷ ps)) ≡ p ∷ ps
unfolding join
split-join sep p [] h _ = split-Lacks sep p h
split-join sep p (q ∷ ps) h (hq, hps) =
    rw (split_at_sep sep p (join sep (q ∷ ps)) h, split-join sep q ps hq hps)

cons_head-All :
    (P : ℕ → Type 0) (c : ℕ) (ps : List Bytes) → P c → All (All P) ps → All (All P) (cons_head c ps)
unfolding cons_head
cons_head-All P c [] h hs = ((h, tt), tt)
cons_head-All P c (p ∷ ps) h (hp, hs) = ((h, hp), hs)

-- What holds of each byte of a text holds of each byte of its parts.
pub split-All : (P : ℕ → Type 0) (sep : ℕ) (s : Bytes) → All P s → All (All P) (split sep s)
unfolding split
split-All P sep [] h = (tt, tt)
split-All P sep (c ∷ s) (hc, h) = elim (Bool-cases (c == sep)) [
  | inl e ↦ rw e (tt, split-All P sep s h)
  | inr e ↦ rw e (cons_head-All P c (split sep s) hc (split-All P sep s h))
]

-- strings.HasPrefix(s, p)
unfoldable pub has_prefix : Bytes → Bytes → Bool
has_prefix s [] = true
has_prefix [] (b ∷ p) = false
has_prefix (a ∷ s) (b ∷ p) = (a == b) && has_prefix s p

reverse_onto : Bytes → Bytes → Bytes
reverse_onto [] t = t
reverse_onto (c ∷ s) t = reverse_onto s (c ∷ t)

-- strings.HasSuffix(s, p)
unfoldable pub has_suffix : Bytes → Bytes → Bool
unfolding has_prefix reverse_onto
has_suffix s p = has_prefix (reverse_onto s []) (reverse_onto p [])

unfoldable pub is_ascii : Bytes → Bool
is_ascii [] = true
is_ascii (c ∷ s) = ltb c 128 && is_ascii s

abbrev pub is_space : ℕ → Bool
is_space c = (leb 9 c && leb c 13) || (c == 32)

trim_left : Bytes → Bytes
trim_left [] = []
trim_left (c ∷ s) = let rest = trim_left s in if is_space c then rest else c ∷ s

abbrev pub upper_byte : ℕ → ℕ
upper_byte c = if leb b'a' c && leb c b'z' then c - 32 else c

-- The functions of the Unicode tables, for texts with a byte above 127.
pub record Unicode : Type 0 where
  pub upper : Bytes → Bytes
  pub trim : Bytes → Bytes

module _ (u : Unicode) where
  -- strings.ToUpper
  unfoldable pub to_upper : Bytes → Bytes
  unfolding is_ascii
  to_upper s = if is_ascii s then map upper_byte s else u.upper s

  -- strings.TrimSpace
  unfoldable pub trim_space : Bytes → Bytes
  unfolding is_ascii trim_left reverse_onto
  trim_space s =
      if is_ascii s then reverse_onto (trim_left (reverse_onto (trim_left s) [])) [] else u.trim s

-- Tables under which no letter has another case and nothing is trimmed.
abbrev pub bare : Unicode
bare = record { upper = λ s. s; trim = λ s. s }
