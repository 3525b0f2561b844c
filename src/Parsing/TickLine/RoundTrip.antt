-- ===== src/Parsing/TickLine/RoundTrip.antt =====
-- Writing a tick and reading the line back.
use libtd.Base.{Bool, true, false, List, [], ◌∷◌, All, ◌≡◌, refl, arith, ok, invalid_argument}
use libtd.Base.Int.{ℤ, int32_limit, int64_limit, IsInt32, IsInt64}
use libtd.Text.{Bytes, equal}
use libtd.Text.Split.{Free, join}
use libtd.Text.Decimal.{show_ℤ, from_chars-show_ℤ}
use libtd.Types.Tick.{
  Tick, FitsInt, Direction, up, down, unchanged, Grouping, grouped, sampled, delayed, candle_1m,
}
use libtd.Parsing.Fields.{show_ℤ-Free}
use libtd.Parsing.GroupingNames
use libtd.Parsing.DirectionNames
use libtd.Parsing.Numbers.{FloatLib, string_to_timepoint, string_to_duration}
use libtd.Parsing.Fields.{split_fields-join}
use libtd.Parsing.GroupingNames.{string_to_price_type, string_to_price_type-to_cstring}
use libtd.Parsing.TickLine.{
  bool_text, parse_direction, parse_int, parse_double, parse_bool, parse_fields, print, create,
}

direction-Free : (d : Direction) → Free b',' (DirectionNames.to_cstring d)
unfolding DirectionNames.to_cstring
direction-Free up = ground arith
direction-Free down = ground arith
direction-Free unchanged = ground arith

grouping-Free : (g : Grouping) → Free b',' (GroupingNames.to_cstring g)
unfolding GroupingNames.to_cstring
grouping-Free grouped = ground arith
grouping-Free sampled = ground arith
grouping-Free delayed = ground arith
grouping-Free candle_1m = ground arith

bool-Free : (b : Bool) → Free b',' (bool_text b)
unfolding bool_text
bool-Free true = ground arith
bool-Free false = ground arith

parse_bool-bool_text : (b : Bool) → parse_bool (bool_text b) ≡ b
unfolding parse_bool bool_text equal
parse_bool-bool_text true = refl
parse_bool-bool_text false = refl

parse_direction-to_cstring : (d : Direction) → parse_direction (DirectionNames.to_cstring d) ≡ ok d
unfolding parse_direction DirectionNames.to_cstring
parse_direction-to_cstring up = refl
parse_direction-to_cstring down = refl
parse_direction-to_cstring unchanged = refl

parse_int-show_ℤ : (a : ℤ) → IsInt32 a → parse_int (show_ℤ a) ≡ ok a
unfolding parse_int
parse_int-show_ℤ a h = rw (from_chars-show_ℤ int32_limit a h)

string_to_duration-show_ℤ : (a : ℤ) → IsInt64 a → string_to_duration (show_ℤ a) ≡ ok a
unfolding string_to_duration
string_to_duration-show_ℤ a h = rw (from_chars-show_ℤ int64_limit a h)

string_to_timepoint-show_ℤ : (a : ℤ) → IsInt64 a → string_to_timepoint (show_ℤ a) ≡ ok a
unfolding string_to_timepoint
string_to_timepoint-show_ℤ a h = rw (from_chars-show_ℤ int64_limit a h)

module _ {D : Type 0} (F : FloatLib D) where
  parse_double-fixed : (d : D) → parse_double F (F.fixed d) ≡ ok (F.round d)
  unfolding parse_double
  parse_double-fixed d = rw (F.read-fixed d)

  -- What six decimals keep of a tick.
  abbrev pub rounded : Tick D → Tick D
  rounded t = record t {
    bid = F.round t.bid;
    ask = F.round t.ask;
    daily_change = F.round t.daily_change;
    high = F.round t.high;
    low = F.round t.low;
    mid_price = F.round t.mid_price;
  }

  -- The fields of the line behind the first two.
  abbrev later_parts : Tick D → List Bytes
  later_parts t =
      F.fixed t.ask
      ∷ F.fixed t.daily_change
      ∷ DirectionNames.to_cstring t.dir
      ∷ bool_text t.tradable
      ∷ F.fixed t.high
      ∷ F.fixed t.low
      ∷ t.hash
      ∷ bool_text t.call_only
      ∷ F.fixed t.mid_price
      ∷ show_ℤ t.timestamp
      ∷ show_ℤ t.field13
      ∷ GroupingNames.to_cstring t.group
      ∷ show_ℤ t.latency
      ∷ []

  abbrev parts : Tick D → List Bytes
  parts t = show_ℤ t.quote_id ∷ F.fixed t.bid ∷ later_parts t

  print-join : (t : Tick D) → print F t ≡ join b',' (parts t)
  unfolding print join
  print-join t = refl

  parts-Free : (t : Tick D) → Free b',' t.hash → All (Free b',') (parts t)
  parts-Free t h = (
    show_ℤ-Free t.quote_id,
    (
      F.fixed-Free t.bid,
      (
        F.fixed-Free t.ask,
        (
          F.fixed-Free t.daily_change,
          (
            direction-Free t.dir,
            (
              bool-Free t.tradable,
              (
                F.fixed-Free t.high,
                (
                  F.fixed-Free t.low,
                  (
                    h,
                    (
                      bool-Free t.call_only,
                      (
                        F.fixed-Free t.mid_price,
                        (
                          show_ℤ-Free t.timestamp,
                          (
                            show_ℤ-Free t.field13,
                            (grouping-Free t.group, (show_ℤ-Free t.latency, tt)),
                          ),
                        ),
                      ),
                    ),
                  ),
                ),
              ),
            ),
          ),
        ),
      ),
    ),
  )

  parse_fields-parts : (t : Tick D) → FitsInt t → parse_fields F (parts t) ≡ ok (rounded t)
  unfolding parse_fields
  parse_fields-parts t h = simp (
    parse_direction-to_cstring,
    string_to_price_type-to_cstring,
    parse_bool-bool_text,
    parse_double-fixed,
    parse_int-show_ℤ t.quote_id h.quote_id,
    parse_int-show_ℤ t.field13 h.field13,
    string_to_duration-show_ℤ t.latency h.latency,
    string_to_timepoint-show_ℤ t.timestamp h.timestamp,
  )

  -- tick::create reads back the line that operator<< writes for a tick, its six doubles rounded
  -- to six decimals, if the integers fit and the hash holds no comma.
  pub create-print :
      (t : Tick D) → FitsInt t → Free b',' t.hash → create F (print F t) ≡ ok (rounded t)
  unfolding create
  create-print t h k = rw print-join (
      rw
        (split_fields-join invalid_argument (show_ℤ t.quote_id) (F.fixed t.bid) (later_parts t) []
          (parts-Free t k) tt)
        (parse_fields-parts t h))
