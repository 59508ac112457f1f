-- ===== src/Defaults.antt =====
-- The settings that mysql, redis, kafka and logger read from the environment.
pub mod Redis
pub mod Mysql
pub mod Kafka
use opendevops_codo_golang_s.Go.Number.Decimal.{
  format_uint-eq-cons, parse_int-format_uint, IsDigit, format_uint-IsDigit,
}
use opendevops_codo_golang_s.Go.Text.Visible.{trim_space-IsVisible, IsVisible}
use opendevops_codo_golang_s.Go.Number.{atoi, to_unsigned, format_uint, to_signed, ℤ, pos}
use opendevops_codo_golang_s.Common.{
  Bytes, ℕ, [], ◌<◌, ◌^◌, ◌∷◌, ◌≡◌, All-imp, arith, ◌*◌, ◌≢◌, refl,
}
use opendevops_codo_golang_s.Go.Text.{Unicode, trim_space}

-- The closure emptyOr, which each of the packages declares.
unfoldable pub empty_or : Unicode → Bytes → Bytes → Bytes
empty_or u str default_val = elim (trim_space u str) [ [] ↦ default_val | c ∷ s ↦ c ∷ s ]

-- uint32(i64) of what strconv.Atoi returned, its error dropped.
unfoldable pub atoi_u32 : Bytes → ℕ
atoi_u32 s = to_unsigned 32 (atoi s).value

trim_space-format_uint : (u : Unicode) (n : ℕ) → trim_space u (format_uint n) ≡ format_uint n
trim_space-format_uint u n =
    trim_space-IsVisible u (format_uint n)
      (All-imp IsDigit IsVisible (λ c d. omega arith) (format_uint n) (format_uint-IsDigit n))

empty_or-format_uint :
    (u : Unicode) (n : ℕ) (default_val : Bytes)
    → empty_or u (format_uint n) default_val ≡ format_uint n
unfolding empty_or
empty_or-format_uint u n default_val =
    let (c, s, e) = format_uint-eq-cons n in ground (arith, e, trim_space-format_uint u n)

-- A text that is not empty and has no space around it is kept.
pub empty_or_kept :
    (u : Unicode) (s default_val : Bytes)
    → trim_space u s ≡ s
    → s ≢ []
    → empty_or u s default_val ≡ s
unfolding empty_or
empty_or_kept u [] default_val trimmed h = absurd (h refl)
empty_or_kept u (c ∷ s) default_val trimmed h = rw (empty_or, trimmed) refl

-- A variable that holds the digits of a uint32 is read as that number, whatever the default.
pub atoi_u32-format_uint :
    (u : Unicode) (n : ℕ) (default_val : Bytes)
    → n < 2 ^ 32
    → atoi_u32 (empty_or u (format_uint n) default_val) ≡ n
unfolding atoi_u32 atoi to_unsigned
atoi_u32-format_uint u n default_val h =
    rw (empty_or-format_uint u n default_val, parse_int-format_uint n (omega arith)) (omega arith)

-- time.Duration(n) * time.Second: an int64 of nanoseconds.
unfoldable pub seconds : ℕ → ℤ
seconds n = to_signed 64 (n * 1_000_000_000)

-- A number of seconds that fits a uint32 is a duration without overflow.
pub seconds-exact : (n : ℕ) → n < 2 ^ 32 → seconds n ≡ pos (n * 1_000_000_000)
unfolding seconds to_signed
seconds-exact n h = ground arith
