-- ===== src/Parsing/CandleLine/Laws.antt =====
-- What `parse_candle` makes of the first field.
use libtd.Base.{false, ℕ, ◌<◌, [], ◌∷◌, ◌++◌, All, ◌≡◌, refl, arith, some, ok, runtime_error}
use libtd.Base.Int.{pos, int64_limit}
use libtd.Text.{Bytes}
use libtd.Text.Split.{Free, join}
use libtd.Text.Decimal.{is_digit, show_ℕ, from_chars_prefix}
use libtd.Types.Candle.{Candle}
use libtd.Parsing.Numbers.{FloatLib, parse_double, string_to_timepoint}
use libtd.Parsing.Fields.{split_fields-join}
use libtd.Parsing.CandleLine.{to_seconds, parse_candle}

string_to_timepoint-prefix :
    (n c : ℕ) (r : Bytes)
    → n < int64_limit
    → is_digit c ≡ false
    → string_to_timepoint (show_ℕ n ++ c ∷ r) ≡ ok (pos n)
unfolding string_to_timepoint
string_to_timepoint-prefix n c r h k = rw (from_chars_prefix int64_limit n c r h k)

small-div : (n : ℕ) → n < 1000000000 → to_seconds (pos n) ≡ pos 0
unfolding to_seconds
small-div n h = ground arith

module _ {D : Type 0} (F : FloatLib D) where
  parse_double-eq : (s : Bytes) (d : D) → F.read s ≡ some d → parse_double F s ≡ ok d
  unfolding parse_double
  parse_double-eq s d h = rw h

  -- parse_candle reads six fields, of which the first is a calendar date with a year below
  -- 1000000000 and the others are the texts of five doubles, as a candle with the epoch as its
  -- time and these doubles.
  pub parse_candle_dated :
      (year : ℕ) (rest : Bytes) (o h l c v : Bytes) (k : Candle D)
      → year < 1000000000
      → All (Free b',') ((show_ℕ year ++ b'-' ∷ rest) ∷ o ∷ h ∷ l ∷ c ∷ v ∷ [])
      → F.read o ≡ some k.open_price
      → F.read h ≡ some k.high
      → F.read l ≡ some k.low
      → F.read c ≡ some k.close
      → F.read v ≡ some k.volume
      → parse_candle F (join b',' ((show_ℕ year ++ b'-' ∷ rest) ∷ o ∷ h ∷ l ∷ c ∷ v ∷ []))
        ≡ ok (record k { timestamp = pos 0 })
  unfolding parse_candle is_digit
  parse_candle_dated year rest o h l c v k y free ro rh rl rc rv =
      rw
        (split_fields-join runtime_error (show_ℕ year ++ b'-' ∷ rest) o (h ∷ l ∷ c ∷ v ∷ []) [] free
          tt)
        (simp (
          string_to_timepoint-prefix year b'-' rest (omega arith) refl,
          small-div year y,
          parse_double-eq o _ ro,
          parse_double-eq h _ rh,
          parse_double-eq l _ rl,
          parse_double-eq c _ rc,
          parse_double-eq v _ rv,
        ))
