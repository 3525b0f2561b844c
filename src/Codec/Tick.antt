-- ===== src/Codec/Tick.antt =====
-- src/types.cpp: the JSON form of `tick`. The library writes an enumeration as its number. It reads
-- one with no check: a number that stands for none of the names gives a value that no table of the
-- code has an entry for, which is `undefined` here.
use Prim.Native.Nat.{zero, suc}
use libtd.Base.{
  arith, ◌≡◌, refl, Option, none, some, Result, ok, ◌>>=◌, [], ◌∷◌, undefined, or_throw,
}
use libtd.Base.Int.{ℤ, pos, IsInt32}
use libtd.Json.{JsonLib, int_at, int64_at, string_at, bool_at, double_at, codec_laws}
use libtd.Types.Tick.{
  Tick, FitsInt, Direction, up, down, unchanged, Grouping, grouped, sampled, delayed, candle_1m,
}

direction_number : Direction → ℤ
direction_number up = pos 0
direction_number down = pos 1
direction_number unchanged = pos 2

direction_of : ℤ → Option Direction
direction_of (pos zero) = some up
direction_of (pos (suc zero)) = some down
direction_of (pos (suc (suc zero))) = some unchanged
direction_of _ = none

grouping_number : Grouping → ℤ
grouping_number grouped = pos 0
grouping_number sampled = pos 1
grouping_number delayed = pos 2
grouping_number candle_1m = pos 3

grouping_of : ℤ → Option Grouping
grouping_of (pos zero) = some grouped
grouping_of (pos (suc zero)) = some sampled
grouping_of (pos (suc (suc zero))) = some delayed
grouping_of (pos (suc (suc (suc zero)))) = some candle_1m
grouping_of _ = none

module _ {D : Type 0} (J : JsonLib D) where
  open J use {Json, of_int, of_bool, of_string, of_double, object, get_int-of_int}

  unfoldable pub to_json : Tick D → Json
  unfolding direction_number grouping_number
  to_json t = object (
      ("quote_id", of_int t.quote_id)
      ∷ ("bid", of_double t.bid)
      ∷ ("ask", of_double t.ask)
      ∷ ("daily_change", of_double t.daily_change)
      ∷ ("dir", of_int (direction_number t.dir))
      ∷ ("tradable", of_bool t.tradable)
      ∷ ("high", of_double t.high)
      ∷ ("low", of_double t.low)
      ∷ ("hash", of_string t.hash)
      ∷ ("call_only", of_bool t.call_only)
      ∷ ("mid_price", of_double t.mid_price)
      ∷ ("timestamp", of_int t.timestamp)
      ∷ ("field13", of_int t.field13)
      ∷ ("group", of_int (grouping_number t.group))
      ∷ ("latency", of_int t.latency)
      ∷ [])

  unfoldable pub from_json : Json → Result (Tick D)
  unfolding direction_of grouping_of
  from_json j = do
    quote_id ← int_at J j "quote_id"
    bid ← double_at J j "bid"
    ask ← double_at J j "ask"
    daily_change ← double_at J j "daily_change"
    dir_number ← int_at J j "dir"
    dir ← or_throw (direction_of dir_number) undefined
    tradable ← bool_at J j "tradable"
    high ← double_at J j "high"
    low ← double_at J j "low"
    hash ← string_at J j "hash"
    call_only ← bool_at J j "call_only"
    mid_price ← double_at J j "mid_price"
    timestamp ← int64_at J j "timestamp"
    field13 ← int_at J j "field13"
    group_number ← int_at J j "group"
    group ← or_throw (grouping_of group_number) undefined
    latency ← int64_at J j "latency"
    ok (record {
      quote_id = quote_id;
      bid = bid;
      ask = ask;
      daily_change = daily_change;
      dir = dir;
      tradable = tradable;
      high = high;
      low = low;
      hash = hash;
      call_only = call_only;
      mid_price = mid_price;
      timestamp = timestamp;
      field13 = field13;
      group = group;
      latency = latency;
    })

  direction_back : (d : Direction) → direction_of (direction_number d) ≡ some d
  unfolding direction_of direction_number
  direction_back up = refl
  direction_back down = refl
  direction_back unchanged = refl

  grouping_back : (g : Grouping) → grouping_of (grouping_number g) ≡ some g
  unfolding grouping_of grouping_number
  grouping_back grouped = refl
  grouping_back sampled = refl
  grouping_back delayed = refl
  grouping_back candle_1m = refl

  direction-IsInt32 : (d : Direction) → IsInt32 (direction_number d)
  unfolding direction_number
  direction-IsInt32 up = omega arith
  direction-IsInt32 down = omega arith
  direction-IsInt32 unchanged = omega arith

  grouping-IsInt32 : (g : Grouping) → IsInt32 (grouping_number g)
  unfolding grouping_number
  grouping-IsInt32 grouped = omega arith
  grouping-IsInt32 sampled = omega arith
  grouping-IsInt32 delayed = omega arith
  grouping-IsInt32 candle_1m = omega arith

  -- from_json reads back the tick that to_json writes, the two enumerations included, if the
  -- integers fit.
  pub from_json-tick : (t : Tick D) → FitsInt t → from_json (to_json t) ≡ ok t
  unfolding from_json to_json
  from_json-tick t h = simp (
    codec_laws,
    h.quote_id,
    h.timestamp,
    h.field13,
    h.latency,
    get_int-of_int (direction_number t.dir) (direction-IsInt32 t.dir),
    get_int-of_int (grouping_number t.group) (grouping-IsInt32 t.group),
    direction_back t.dir,
    grouping_back t.group,
  )
