-- ===== src/Parsing/TdTick/Ranges.antt =====
-- The integers of the ticks that `parse_td_tick` gives.
use libtd.Base.{
  All, All, List, ◌≡◌, arith, Result, ok, ◌>>=◌, runtime_error, or_throw, Gives, bind-Gives,
  Gives-any, or_throw-Gives, Gives-ok,
}
use libtd.Base.Int.{ℤ, int32_limit, int64_limit, IsInt32, IsInt64, ◌-ℤ◌}
use libtd.Text.{Bytes}
use libtd.Text.Split.{Free}
use libtd.Text.Decimal.{from_chars, from_chars-InRange}
use libtd.Types.Tick.{Tick, FitsInt, Grouping}
use libtd.Parsing.Numbers.{FloatLib, int64, parse_int, parse_double}
use libtd.Parsing.Fields.{split_fields, field, split_fields-Free, field-Free}
use libtd.Parsing.TickLine.{print, create}
use libtd.Parsing.TickLine.RoundTrip.{rounded, create-print}
use libtd.Parsing.TdTick.{unix_ns, parse_fields, parse_td_tick}

int64-IsInt64 : (a : ℤ) → Gives IsInt64 (int64 a)
unfolding int64 Gives
int64-IsInt64 a = ground arith

unix_ns-IsInt64 : (a : ℤ) → Gives IsInt64 (unix_ns a)
unfolding unix_ns
unix_ns-IsInt64 a =
    bind-Gives (λ since. Unit) IsInt64 (int64 _) _ (Gives-any _) (λ since h. int64-IsInt64 _)

parse_int-IsInt32 : (s : Bytes) → Gives IsInt32 (parse_int s)
unfolding parse_int
parse_int-IsInt32 s =
    or_throw-Gives IsInt32 (from_chars int32_limit s) runtime_error
      (λ a h. from_chars-InRange int32_limit s a (omega arith) h)

-- The integers fit and the hash is one field, as it is for `operator<<` to be read back.
record IsPrintable {D : Type 0} (t : Tick D) : Type 0 where
  fits : FitsInt t
  free : Free b',' t.hash

module _ {D : Type 0} (F : FloatLib D) where
  double_then :
      (s : Bytes) (rest : D → Result (Tick D))
      → ((d : D) → Gives IsPrintable (rest d))
      → Gives IsPrintable (parse_double F s >>= rest)
  double_then s rest h =
      bind-Gives (λ d. Unit) IsPrintable (parse_double F s) rest (Gives-any _) (λ d _. h d)

  parse_fields-IsPrintable :
      (fields : List Bytes) (g : Grouping) (now : ℤ)
      → All (Free b',') fields
      → Gives IsPrintable (parse_fields F fields g now)
  unfolding parse_fields Gives
  parse_fields-IsPrintable fields g now free =
      bind-Gives (λ ticks. Unit) IsPrintable
        (or_throw (from_chars int64_limit (field fields 11)) runtime_error) _ (Gives-any _)
        (λ ticks _.
          bind-Gives IsInt64 IsPrintable (unix_ns ticks) _ (unix_ns-IsInt64 ticks) (λ time is_time.
            bind-Gives IsInt64 IsPrintable (int64 (now -ℤ time)) _ (int64-IsInt64 _)
              (λ latency is_latency.
                bind-Gives IsInt32 IsPrintable (parse_int (field fields 0)) _ (parse_int-IsInt32 _)
                  (λ quote_id is_quote. double_then (field fields 1) _ (λ bid.
                    double_then (field fields 2) _ (λ ask.
                      double_then (field fields 3) _ (λ daily_change.
                        double_then (field fields 6) _ (λ high.
                          double_then (field fields 7) _ (λ low.
                            double_then (field fields 10) _ (λ mid_price.
                              bind-Gives IsInt32 IsPrintable (parse_int (field fields 12)) _
                                (parse_int-IsInt32 _)
                                (λ field13 is_13. record {
                                  fits = record {
                                    quote_id = is_quote;
                                    timestamp = is_time;
                                    field13 = is_13;
                                    latency = is_latency;
                                  };
                                  free = field-Free fields 8 free;
                                })))))))))))

  parse_td_tick-IsPrintable :
      (line : Bytes) (g : Grouping) (now : ℤ) (t : Tick D)
      → parse_td_tick F line g now ≡ ok t
      → IsPrintable t
  unfolding parse_td_tick
  parse_td_tick-IsPrintable line g now t h =
      Gives-ok IsPrintable (parse_td_tick F line g now) t
        (bind-Gives (All (Free b',')) IsPrintable (split_fields 13 runtime_error line) _
          (split_fields-Free 13 runtime_error line)
          (λ fields free. parse_fields-IsPrintable fields g now free))
        h

  -- tick::create reads back the line that operator<< writes for any tick that parse_td_tick
  -- gives, its six doubles rounded to six decimals.
  pub create-print-parse_td_tick :
      (line : Bytes) (g : Grouping) (now : ℤ) (t : Tick D)
      → parse_td_tick F line g now ≡ ok t
      → create F (print F t) ≡ ok (rounded F t)
  create-print-parse_td_tick line g now t h =
      let printable = parse_td_tick-IsPrintable line g now t h in
      create-print F t printable.fits printable.free
