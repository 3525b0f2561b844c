-- ===== src/Parsing/CandleLine.antt =====
-- src/parsing.cpp: `parse_candle`.
pub mod Laws
use libtd.Base.{ℕ, suc, ◌/◌, List, Result, ok, ◌>>=◌, runtime_error}
use libtd.Base.Int.{ℤ, pos, negsuc, sub_ℕ}
use libtd.Text.{Bytes}
use libtd.Types.Candle.{Candle}
use libtd.Parsing.Numbers.{FloatLib, parse_double, string_to_timepoint}
use libtd.Parsing.Fields.{split_fields, field}

-- `time_point_cast<seconds>` of nanoseconds, which rounds towards zero.
unfoldable pub to_seconds : ℤ → ℤ
to_seconds (pos n) = pos (n / 1000000000)
to_seconds (negsuc n) = sub_ℕ 0 (suc n / 1000000000)

module _ {D : Type 0} (F : FloatLib D) where
  parse_fields : List Bytes → Result (Candle D)
  unfolding to_seconds
  parse_fields fields = do
    timestamp ← string_to_timepoint (field fields 0)
    open_price ← parse_double F (field fields 1)
    high ← parse_double F (field fields 2)
    low ← parse_double F (field fields 3)
    close ← parse_double F (field fields 4)
    volume ← parse_double F (field fields 5)
    ok (record {
      timestamp = to_seconds timestamp;
      open_price = open_price;
      high = high;
      low = low;
      close = close;
      volume = volume;
    })

  unfoldable pub parse_candle : Bytes → Result (Candle D)
  unfolding parse_fields
  parse_candle candle_string = do
    fields ← split_fields 6 runtime_error candle_string
    parse_fields fields
