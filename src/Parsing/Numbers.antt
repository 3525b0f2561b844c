-- ===== src/Parsing/Numbers.antt =====
-- src/parsing.cpp: numbers in text. The text form of a `double` belongs to the standard library and is
-- a parameter; integers are read and written by Text/Decimal.
use libtd.Base.{
  Option, some, ◌≡◌, Result, ok, err, runtime_error, undefined, or_throw, ◌&&◌, ltb, leb,
  if◌then◌else◌,
}
use libtd.Base.Int.{ℤ, pos_part, neg_part, int32_limit, int64_limit}
use libtd.Text.{Bytes}
use libtd.Text.Split.{Free}
use libtd.Text.Decimal.{from_chars}

-- The value-initialised double; `from_chars` into a double; `std::fixed << std::setprecision(6) << d`, which is also
-- `std::to_string(d)`; and the double that the six decimals stand for.
pub record FloatLib (D : Type 0) : Type 0 where
  pub zero : D
  pub read : Bytes → Option D
  pub fixed : D → Bytes
  pub round : D → D
  pub read-fixed : (d : D) → read (fixed d) ≡ some (round d)
  pub fixed-Free : (d : D) → Free b',' (fixed d)

-- The result of an operation on 64-bit signed integers, where overflow is undefined.
unfoldable pub int64 : ℤ → Result ℤ
int64 a =
    if ltb (pos_part a) int64_limit && leb (neg_part a) int64_limit then ok a else err undefined

unfoldable pub parse_int : Bytes → Result ℤ
parse_int s = or_throw (from_chars int32_limit s) runtime_error

unfoldable pub parse_double : {D : Type 0} → FloatLib D → Bytes → Result D
parse_double F s = or_throw (F.read s) runtime_error

-- Nanoseconds from the epoch.
unfoldable pub string_to_timepoint : Bytes → Result ℤ
string_to_timepoint s = or_throw (from_chars int64_limit s) runtime_error

unfoldable pub string_to_duration : Bytes → Result ℤ
string_to_duration s = or_throw (from_chars int64_limit s) runtime_error
