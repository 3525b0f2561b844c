-- ===== src/Parsing/Iso8601.antt =====
-- src/parsing.cpp: `parse_iso8601_sv`. The reader of a broken-down time, `timegm`, is a parameter.
use libtd.Base.{
  ℕ, Bool, false, ◌&&◌, ◌||◌, ◌==◌, if◌then◌else◌, Option, none, some, length, take, drop,
  get_elem?, Result, ok, ◌>>=◌, ◌>>◌, guard, invalid_argument,
}
use libtd.Base.Int.{ℤ, pos, ◌+ℤ◌, ◌-ℤ◌, ◌*ℤ◌}
use libtd.Text.{Bytes}
use libtd.Parsing.Numbers.{parse_int, int64}
use libtd.Parsing.CandleLine.{to_seconds}

-- `std::tm`, as far as the code fills it.
pub record Tm : Type 0 where
  pub year : ℤ
  pub mon : ℤ
  pub mday : ℤ
  pub hour : ℤ
  pub min : ℤ
  pub sec : ℤ

-- `to_int`
unfoldable pub to_int : Bytes → ℕ → ℕ → Result ℤ
unfolding parse_int
to_int sv position len = parse_int (take len (drop position sv))

unfoldable pub is_sign : Option ℕ → Bool
is_sign none = false
is_sign (some c) = c == b'+' || c == b'-'

unfoldable pub read_tm : Bytes → Result Tm
unfolding to_int ◌-ℤ◌
read_tm sv = do
  year ← to_int sv 0 4
  mon ← to_int sv 5 2
  mday ← to_int sv 8 2
  hour ← to_int sv 11 2
  min ← to_int sv 14 2
  sec ← to_int sv 17 2
  ok (record {
    year = year -ℤ pos 1900;
    mon = mon -ℤ pos 1;
    mday = mday;
    hour = hour;
    min = min;
    sec = sec;
  })

unfoldable pub is_minus : Option ℕ → Bool
is_minus none = false
is_minus (some c) = c == b'-'

-- The offset of the time zone, in seconds.
unfoldable pub read_offset : Bytes → Result ℤ
unfolding to_int is_minus ◌+ℤ◌ ◌-ℤ◌ ◌*ℤ◌
read_offset sv = do
  off_h ← to_int sv 20 2
  off_m ← to_int sv 23 2
  let seconds = off_h *ℤ pos 3600 +ℤ off_m *ℤ pos 60
  ok (if is_minus (get_elem? sv 19) then pos 0 -ℤ seconds else seconds)

-- In seconds; `from_time_t` counts nanoseconds in between.
unfoldable pub parse_iso8601_sv : (Tm → ℤ) → Bytes → Result ℤ
unfolding is_sign read_tm read_offset int64 to_seconds ◌-ℤ◌ ◌*ℤ◌
parse_iso8601_sv timegm sv = do
  guard (length sv == 25 && is_sign (get_elem? sv 19)) invalid_argument
  tm ← read_tm sv
  offset_seconds ← read_offset sv
  tt ← int64 (timegm tm -ℤ offset_seconds)
  t ← int64 (tt *ℤ pos 1000000000)
  ok (to_seconds t)
