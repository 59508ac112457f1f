-- ===== src/Logger/Level.antt =====
-- logger/level.go, and convZapLevel of logger/logger.go. Level is an int8.
use opendevops_codo_golang_s.Go.Dict.{int_beq}
use opendevops_codo_golang_s.Go.Text.{Unicode, is_ascii, to_upper, upper_byte}
use opendevops_codo_golang_s.Common.{
  Bytes, if◌then◌else◌, ℕ, ◌≡◌, map, same, true, ◌⊎◌, arith, utf8, ◌∷◌, [], refl, inl, inr,
}
use opendevops_codo_golang_s.Go.Number.{negsuc, pos, ℤ}

abbrev pub Level : Type 0
Level = ℤ

abbrev pub level_debug : Level
level_debug = negsuc 0

abbrev pub level_info : Level
level_info = pos 0

abbrev pub level_warn : Level
level_warn = pos 1

abbrev pub level_error : Level
level_error = pos 2

abbrev pub level_fatal : Level
level_fatal = pos 3

-- Level.String
unfoldable pub level_string : Level → Bytes
level_string l =
    if int_beq l level_debug
    then utf8 "DEBUG"
    else if int_beq l level_info
    then utf8 "INFO"
    else if int_beq l level_warn
    then utf8 "WARN"
    else if int_beq l level_error
    then utf8 "ERROR"
    else if int_beq l level_fatal
    then utf8 "FATAL"
    else []

-- The switch of ParseLevel, on the text in upper case.
level_named : Bytes → Level
level_named s =
    if same s (utf8 "DEBUG")
    then level_debug
    else if same s (utf8 "INFO")
    then level_info
    else if same s (utf8 "WARN")
    then level_warn
    else if same s (utf8 "ERROR")
    then level_error
    else if same s (utf8 "FATAL")
    then level_fatal
    else level_info

-- ParseLevel
unfoldable pub parse_level : Unicode → Bytes → Level
unfolding level_named
parse_level u s = level_named (to_upper u s)

-- The levels of zap that are used.
pub data ZapLevel : Type 0 where
  debug info warn error fatal : ZapLevel

unfoldable pub conv_zap_level : Level → ZapLevel
conv_zap_level l =
    if int_beq l level_debug
    then debug
    else if int_beq l level_info
    then info
    else if int_beq l level_warn
    then warn
    else if int_beq l level_error
    then error
    else if int_beq l level_fatal
    then fatal
    else debug

-- The five levels that the package declares.
abbrev IsLevel : Level → Type 0
IsLevel l =
    (l ≡ level_debug) ⊎ (l ≡ level_info) ⊎ (l ≡ level_warn) ⊎ (l ≡ level_error) ⊎ (l ≡ level_fatal)

-- ParseLevel reads the name of each declared level back, whatever the Unicode tables.
parse_level-level_string :
    (u : Unicode) (l : Level) → IsLevel l → parse_level u (level_string l) ≡ l
unfolding parse_level level_string to_upper
parse_level-level_string u l (inl e) = rw e
parse_level-level_string u l (inr (inl e)) = rw e
parse_level-level_string u l (inr (inr (inl e))) = rw e
parse_level-level_string u l (inr (inr (inr (inl e)))) = rw e
parse_level-level_string u l (inr (inr (inr (inr e)))) = rw e

upper_byte_idem : (c : ℕ) → upper_byte (upper_byte c) ≡ upper_byte c
upper_byte_idem c = ground arith

map-upper_byte_idem : (s : Bytes) → map upper_byte (map upper_byte s) ≡ map upper_byte s
map-upper_byte_idem [] = refl
map-upper_byte_idem (c ∷ s) = cc (upper_byte_idem c, map-upper_byte_idem s)

is_ascii-map : (s : Bytes) → is_ascii s ≡ true → is_ascii (map upper_byte s) ≡ true
unfolding is_ascii
is_ascii-map [] h = refl
is_ascii-map (c ∷ s) h = ground (arith, is_ascii-map s)

-- The case of ASCII letters does not matter to ParseLevel.
parse_level-map :
    (u : Unicode) (s : Bytes)
    → is_ascii s ≡ true
    → parse_level u (map upper_byte s) ≡ parse_level u s
unfolding parse_level to_upper
parse_level-map u s h = rw (is_ascii-map s h, h, map-upper_byte_idem s)
