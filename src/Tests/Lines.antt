-- ===== src/Tests/Lines.antt =====
-- The readers and writers of lines on concrete text.
use libtd.Base.{
  invalid_argument, All, ℕ, [], ◌∷◌, ◌++◌, ◌≡◌, refl, some, ok, err, arith, ◌*◌, if◌then◌else◌, leb,
  ◌&&◌, ◌+◌, undefined,
}
use libtd.Base.Int.{◌*ℤ◌, ◌+ℤ◌, ℤ, pos, sub_ℕ, ◌-ℤ◌, int64_limit, IsInt64}
use libtd.Text.{Bytes, codes}
use libtd.Text.Split.{Free, join}
use libtd.Text.Decimal.{from_chars, show_ℤ, show_ℕ, from_chars-show_ℤ}
use libtd.Types.Tick.{Tick, sampled}
use libtd.Types.Candle.{Candle}
use libtd.Parsing.TickLine.{print, create}
use libtd.Parsing.TickLine.RoundTrip.{create-print, rounded}
use libtd.Parsing.TdTick.{unix_ns, parse_td_tick, windows_ticks_to_unix_epoch}
use libtd.Parsing.TdTick.Laws.{
  window, unix_ns-window, parse_td_tick_lem, Texts, IsTextOf, server_fields,
}
use libtd.Parsing.TdTick.Ranges.{create-print-parse_td_tick}
use libtd.Parsing.Iso8601.{Tm, parse_iso8601_sv}
use libtd.Parsing.CandleLine.{parse_candle}
use libtd.Parsing.CandleLine.Laws.{parse_candle_dated}
use libtd.Tests.Library.{float}
use libtd.Tests.Values.{a_tick, a_candle}
use libtd.Tests.Codecs.{a_tick-FitsInt}

create-print_example : create float (print float a_tick) ≡ ok (rounded float a_tick)
create-print_example = create-print float a_tick a_tick-FitsInt (ground arith)

-- A day of 2024, as a count of 100 ns.
abbrev day : ℕ
day = 638400000000000000

unix_ns-window_example : unix_ns (pos day) ≡ (
    if leb windows_ticks_to_unix_epoch (day + window)
      && leb day (windows_ticks_to_unix_epoch + window)
    then ok (sub_ℕ (day * 100) (windows_ticks_to_unix_epoch * 100))
    else err undefined)
unix_ns-window_example = unix_ns-window day (omega arith)

abbrev sent_tick : Tick ℤ
sent_tick = record a_tick {
  timestamp = sub_ℕ (day * 100) (windows_ticks_to_unix_epoch * 100);
  bid = pos 7;
  ask = pos 8;
  daily_change = pos 1;
  high = pos 9;
  low = pos 6;
  mid_price = pos 7;
}

abbrev sent_texts : Texts
sent_texts = record {
  bid = codes "7";
  ask = codes "8";
  daily_change = codes "1";
  high = codes "9";
  low = codes "6";
  mid_price = codes "7";
}

sent_texts-IsTextOf : IsTextOf float sent_texts sent_tick
unfolding show_ℤ
sent_texts-IsTextOf = record {
  bid = from_chars-show_ℤ int64_limit (pos 7) (omega arith);
  ask = from_chars-show_ℤ int64_limit (pos 8) (omega arith);
  daily_change = from_chars-show_ℤ int64_limit (pos 1) (omega arith);
  high = from_chars-show_ℤ int64_limit (pos 9) (omega arith);
  low = from_chars-show_ℤ int64_limit (pos 6) (omega arith);
  mid_price = from_chars-show_ℤ int64_limit (pos 7) (omega arith);
  free = ground arith;
}

latency-IsInt64 : IsInt64 (sent_tick.timestamp -ℤ sent_tick.timestamp)
unfolding ◌-ℤ◌
latency-IsInt64 = omega arith

parse_td_tick_lem_example :
    parse_td_tick float
      (join b',' (server_fields sent_texts sent_tick day ++ codes "x" ∷ []))
      sampled
      (sent_tick.timestamp)
    ≡ ok (record sent_tick { latency = sent_tick.timestamp -ℤ sent_tick.timestamp })
parse_td_tick_lem_example =
    parse_td_tick_lem float sent_texts sent_tick day sent_tick.timestamp (codes "x" ∷ [])
      sent_texts-IsTextOf (ground arith) (omega arith) (omega arith) (omega arith) refl
      latency-IsInt64

abbrev sent_line : Bytes
sent_line = join b',' (server_fields sent_texts sent_tick day ++ codes "x" ∷ [])

abbrev received : Tick ℤ
received = record sent_tick { latency = sent_tick.timestamp -ℤ sent_tick.timestamp }

sent_line-received : parse_td_tick float sent_line sampled (sent_tick.timestamp) ≡ ok received
sent_line-received =
    parse_td_tick_lem float sent_texts sent_tick day sent_tick.timestamp (codes "x" ∷ [])
      sent_texts-IsTextOf (ground arith) (omega arith) (omega arith) (omega arith) refl
      latency-IsInt64

create-print-parse_td_tick_example :
    create float (print float received) ≡ ok (rounded float received)
create-print-parse_td_tick_example =
    create-print-parse_td_tick float sent_line sampled sent_tick.timestamp received
      sent_line-received

abbrev flat_candle : Candle ℤ
flat_candle = record a_candle {
  open_price = pos 5;
  high = pos 5;
  low = pos 5;
  close = pos 5;
  volume = pos 5;
}

five-read : from_chars int64_limit (codes "5") ≡ some (pos 5)
unfolding show_ℤ
five-read = from_chars-show_ℤ int64_limit (pos 5) (omega arith)

abbrev dated : Bytes
dated = show_ℕ 2025 ++ b'-' ∷ codes "08-16T00:45:00+00:00"

dated-Free :
    All (Free b',') (dated ∷ codes "5" ∷ codes "5" ∷ codes "5" ∷ codes "5" ∷ codes "5" ∷ [])
unfolding show_ℕ
dated-Free = ground arith

parse_candle_dated_example :
    parse_candle float
      (join b',' (dated ∷ codes "5" ∷ codes "5" ∷ codes "5" ∷ codes "5" ∷ codes "5" ∷ []))
    ≡ ok (record flat_candle { timestamp = pos 0 })
parse_candle_dated_example =
    parse_candle_dated float 2025 (codes "08-16T00:45:00+00:00") (codes "5") (codes "5") (codes "5")
      (codes "5") (codes "5") flat_candle (omega arith) dated-Free five-read five-read five-read
      five-read five-read

-- The hours and minutes alone.
abbrev seconds_of_day : Tm → ℤ
seconds_of_day tm = tm.hour *ℤ pos 3600 +ℤ tm.min *ℤ pos 60 +ℤ tm.sec

zone_east : parse_iso8601_sv seconds_of_day (codes "2025-08-16T12:45:07+01:30") ≡ ok (pos 40507)
unfolding parse_iso8601_sv from_chars ◌+ℤ◌ ◌-ℤ◌ ◌*ℤ◌
zone_east = refl

zone_west : parse_iso8601_sv seconds_of_day (codes "2025-08-16T12:45:07-01:30") ≡ ok (pos 51307)
unfolding parse_iso8601_sv from_chars ◌+ℤ◌ ◌-ℤ◌ ◌*ℤ◌
zone_west = refl

no_zone : parse_iso8601_sv seconds_of_day (codes "2025-08-16T12:45:07Z") ≡ err invalid_argument
unfolding parse_iso8601_sv
no_zone = refl
