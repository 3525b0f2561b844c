-- ===== src/Parsing/TickLine.antt =====
-- src/types.cpp: a tick as a line of comma-separated values, `operator<<` and `tick::parse`.
pub mod RoundTrip
use libtd.Base.{
  ℕ, Bool, true, false, List, [], ◌∷◌, ◌++◌, get_elem?, ◌==◌, if◌then◌else◌, Error, Result, ok, err,
  ◌>>=◌, invalid_argument, undefined, or_throw,
}
use libtd.Base.Int.{ℤ, int32_limit}
use libtd.Text.{Bytes, codes, equal}
use libtd.Text.Decimal.{show_ℤ, from_chars}
use libtd.Types.Tick.{Tick, Direction, up, down, unchanged, Grouping}
use libtd.Parsing.GroupingNames
use libtd.Parsing.GroupingNames.{string_to_price_type}
use libtd.Parsing.DirectionNames
use libtd.Parsing.Numbers.{FloatLib, string_to_timepoint, string_to_duration}
use libtd.Parsing.Fields.{split_fields, field}

bool_text : Bool → Bytes
bool_text true = codes "true"
bool_text false = codes "false"

-- An index past the end of a view is undefined.
char_at : Bytes → ℕ → Result ℕ
char_at s i = or_throw (get_elem? s i) undefined

-- `u` of "up" is told from that of "unchanged" by the second character.
parse_direction : Bytes → Result Direction
unfolding char_at
parse_direction s = do
  c1 ← char_at s 1
  c0 ← char_at s 0
  ok (if c1 == b'p' then up else if c0 == b'd' then down else unchanged)

-- The lambdas of `tick::parse`, which hide the functions of the same names.
parse_int : Bytes → Result ℤ
parse_int s = or_throw (from_chars int32_limit s) invalid_argument

parse_double : {D : Type 0} → FloatLib D → Bytes → Result D
parse_double F s = or_throw (F.read s) invalid_argument

parse_bool : Bytes → Bool
parse_bool s = equal s (codes "true")

module _ {D : Type 0} (F : FloatLib D) where
  -- The line that `os << t` writes.
  unfoldable pub print : Tick D → Bytes
  unfolding bool_text
  print t =
      show_ℤ t.quote_id
      ++ (b',' ∷ F.fixed t.bid
          ++ (b',' ∷ F.fixed t.ask
              ++ (b',' ∷ F.fixed t.daily_change
                  ++ (b',' ∷ DirectionNames.to_cstring t.dir
                      ++ (b',' ∷ bool_text t.tradable
                          ++ (b',' ∷ F.fixed t.high
                              ++ (b',' ∷ F.fixed t.low
                                  ++ (b',' ∷ t.hash
                                      ++ (b',' ∷ bool_text t.call_only
                                          ++ (b',' ∷ F.fixed t.mid_price
                                              ++ (b',' ∷ show_ℤ t.timestamp
                                                  ++ (b',' ∷ show_ℤ t.field13
                                                      ++ (b',' ∷ GroupingNames.to_cstring t.group
                                                          ++ (b',' ∷ show_ℤ t.latency))))))))))))))

  -- The assignments of `tick::parse` behind the split, in their order.
  parse_fields : List Bytes → Result (Tick D)
  unfolding parse_direction parse_int parse_double parse_bool
  parse_fields fields = do
    dir ← parse_direction (field fields 4)
    group ← string_to_price_type (field fields 13)
    quote_id ← parse_int (field fields 0)
    bid ← parse_double F (field fields 1)
    ask ← parse_double F (field fields 2)
    daily_change ← parse_double F (field fields 3)
    let tradable = parse_bool (field fields 5)
    high ← parse_double F (field fields 6)
    low ← parse_double F (field fields 7)
    let hash = field fields 8
    let call_only = parse_bool (field fields 9)
    mid_price ← parse_double F (field fields 10)
    field13 ← parse_int (field fields 12)
    latency ← string_to_duration (field fields 14)
    timestamp ← string_to_timepoint (field fields 11)
    ok (record {
      quote_id = quote_id;
      bid = bid;
      ask = ask;
      daily_change = daily_change;
      dir = dir;
      tradable = tradable;
      high = high;
      low = low;
      hash = hash;
      call_only = call_only;
      mid_price = mid_price;
      timestamp = timestamp;
      field13 = field13;
      group = group;
      latency = latency;
    })

  -- `tick::create`: `parse` on a fresh tick, whose fields it assigns one and all.
  unfoldable pub create : Bytes → Result (Tick D)
  unfolding parse_fields
  create line = do fields ← split_fields 15 invalid_argument line; parse_fields fields
