-- ===== src/Config/Flags/Tag.antt =====
-- The name that a flag tag gives a flag, in parseFlagStruct of config/config.go.
use opendevops_codo_golang_s.Common.{
  ◌∷◌, Bytes, List, All, length, ◌<◌, ◌≡◌, arith, ◌++◌, ◌≢◌, ◌≤◌, [], if◌then◌else◌, ap, ltb, refl,
}
use opendevops_codo_golang_s.Config.Flags.{flag_names, name_parts}
use opendevops_codo_golang_s.Go.Text.{Lacks, join, split, split-join}

-- A part of a flag tag: it holds no bar.
abbrev pub IsPart : Bytes → Type 0
IsPart = Lacks b'|'

-- At most one byte.
abbrev pub IsShort : Bytes → Type 0
IsShort s = length s ≤ 1

-- Behind the name only short parts follow, which leave it.
name_parts_kept :
    (ps : List Bytes) (name short : Bytes) → All IsShort ps → (name_parts ps name short).0 ≡ name
unfolding name_parts
name_parts_kept [] name short h = refl
name_parts_kept ([] ∷ ps) name short (_, h) = name_parts_kept ps name short h
name_parts_kept ((c ∷ []) ∷ ps) name short (_, h) = name_parts_kept ps name (c ∷ []) h
name_parts_kept ((c ∷ d ∷ s) ∷ ps) name short (h, _) = absurd (omega (arith, h))

name_parts_last :
    (before after : List Bytes) (name old short : Bytes)
    → 1 < length name
    → All IsShort after
    → (name_parts (before ++ name ∷ after) old short).0 ≡ name
unfolding name_parts
name_parts_last [] after [] old short long h = absurd (omega (arith, long))
name_parts_last [] after (c ∷ []) old short long h = absurd (omega (arith, long))
name_parts_last [] after (c ∷ d ∷ s) old short long h = name_parts_kept after (c ∷ d ∷ s) short h
name_parts_last ([] ∷ ps) after name old short long h =
    name_parts_last ps after name old short long h
name_parts_last ((c ∷ []) ∷ ps) after name old short long h =
    name_parts_last ps after name old (c ∷ []) long h
name_parts_last ((c ∷ d ∷ s) ∷ ps) after name old short long h =
    name_parts_last ps after name (c ∷ d ∷ s) short long h

split-tag :
    (before after : List Bytes) (name : Bytes)
    → All IsPart (before ++ name ∷ after)
    → split b'|' (join b'|' (before ++ name ∷ after)) ≡ before ++ name ∷ after
split-tag [] after name (h, hs) = split-join b'|' name after h hs
split-tag (b ∷ before) after name (h, hs) = split-join b'|' b (before ++ name ∷ after) h hs

-- The name that flag_names finds.
pub flag_names-join :
    (before after : List Bytes) (name : Bytes)
    → All IsPart (before ++ name ∷ after)
    → 1 < length name
    → All IsShort after
    → (flag_names (join b'|' (before ++ name ∷ after))).0 ≡ name
unfolding flag_names join
flag_names-join before after name parts long short =
    rw (split-tag before after name parts) (by_length before after parts long short)
  where
    by_length :
        (before after : List Bytes)
        → All IsPart (before ++ name ∷ after)
        → 1 < length name
        → All IsShort after
        → (if ltb 1 (length (before ++ name ∷ after))
            then name_parts (before ++ name ∷ after) (join b'|' (before ++ name ∷ after)) []
            else (join b'|' (before ++ name ∷ after), [])).0
          ≡ name
    by_length [] [] parts long short = refl
    by_length [] (a ∷ after) parts long short =
        ground
          (arith, name_parts_last [] (a ∷ after) name (join b'|' (name ∷ a ∷ after)) [] long short)
    by_length (b ∷ before) after parts long short = ground (
      arith,
      name_parts_last (b ∷ before) after name (join b'|' (b ∷ before ++ name ∷ after)) [] long
          short,
    )

pub not_empty : (tag name : Bytes) → (flag_names tag).0 ≡ name → 1 < length name → tag ≢ []
unfolding flag_names split name_parts
not_empty [] name named long e = absurd (omega (arith, long, ap length named))
not_empty (c ∷ tag) name named long e = cc
