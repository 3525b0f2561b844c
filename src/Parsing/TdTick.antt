-- ===== src/Parsing/TdTick.antt =====
-- src/parsing.cpp: `parse_td_tick`, which reads a tick as the server sends it.
pub mod Laws
pub mod Ranges
use libtd.Base.{
  ℕ, Bool, true, false, List, [], ◌∷◌, ◌==◌, if◌then◌else◌, Error, Result, ok, err, ◌>>=◌,
  runtime_error, or_throw,
}
use libtd.Base.Int.{ℤ, pos, int64_limit, ◌-ℤ◌, ◌*ℤ◌}
use libtd.Text.{Bytes, codes, equal}
use libtd.Text.Decimal.{from_chars}
use libtd.Types.Tick.{Tick, Direction, up, down, unchanged, Grouping}
use libtd.Parsing.Numbers.{FloatLib, int64, parse_int, parse_double}
use libtd.Parsing.Fields.{split_fields, field}

abbrev pub windows_ticks_to_unix_epoch : ℕ
windows_ticks_to_unix_epoch = 621355968000000000

abbrev pub ticks_per_nanosecond : ℕ
ticks_per_nanosecond = 100

-- The first character decides; an empty field counts as '?'.
parse_direction : Bytes → Direction
parse_direction [] = unchanged
parse_direction (d0 ∷ s) = if d0 == b'u' then up else if d0 == b'd' then down else unchanged

-- Nanoseconds from the Unix epoch, for a count of 100 ns from the year 1.
unfoldable pub unix_ns : ℤ → Result ℤ
unfolding ◌-ℤ◌ ◌*ℤ◌
unix_ns windows_ticks = do
  since_epoch ← int64 (windows_ticks -ℤ pos windows_ticks_to_unix_epoch)
  int64 (since_epoch *ℤ pos ticks_per_nanosecond)

module _ {D : Type 0} (F : FloatLib D) where
  -- `now` is the clock's reading.
  parse_fields : List Bytes → Grouping → ℤ → Result (Tick D)
  unfolding parse_direction ◌-ℤ◌
  parse_fields fields price_type now = do
    let dir_value = parse_direction (field fields 4)
    windows_ticks ← or_throw (from_chars int64_limit (field fields 11)) runtime_error
    timestamp_value ← unix_ns windows_ticks
    latency_value ← int64 (now -ℤ timestamp_value)
    quote_id ← parse_int (field fields 0)
    bid ← parse_double F (field fields 1)
    ask ← parse_double F (field fields 2)
    daily_change ← parse_double F (field fields 3)
    high ← parse_double F (field fields 6)
    low ← parse_double F (field fields 7)
    mid_price ← parse_double F (field fields 10)
    field13 ← parse_int (field fields 12)
    ok (record {
      quote_id = quote_id;
      bid = bid;
      ask = ask;
      daily_change = daily_change;
      dir = dir_value;
      tradable = equal (field fields 5) (codes "1");
      high = high;
      low = low;
      hash = field fields 8;
      call_only = equal (field fields 9) (codes "1");
      mid_price = mid_price;
      timestamp = timestamp_value;
      field13 = field13;
      group = price_type;
      latency = latency_value;
    })

  unfoldable pub parse_td_tick : Bytes → Grouping → ℤ → Result (Tick D)
  unfolding parse_fields
  parse_td_tick price_string price_type now = do
    fields ← split_fields 13 runtime_error price_string
    parse_fields fields price_type now
