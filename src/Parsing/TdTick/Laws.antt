-- ===== src/Parsing/TdTick/Laws.antt =====
-- What `parse_td_tick` promises about the lines that the server sends.
use libtd.Base.{
  sym, ℕ, ◌<◌, ◌≤◌, ◌+◌, ◌*◌, List, [], ◌∷◌, ◌++◌, All, length, leb, ◌&&◌, if◌then◌else◌, Bool,
  true, false, ◌≡◌, refl, ap, ◌∙◌, arith, some, ok, err, runtime_error, undefined,
}
use libtd.Base.Int.{ℤ, pos, sub_ℕ, int32_limit, int64_limit, IsInt32, IsInt64, ◌-ℤ◌}
use libtd.Text.{Bytes, codes, equal}
use libtd.Text.Split.{Free, join}
use libtd.Text.Decimal.{show_ℕ, show_ℤ, from_chars, from_chars-show_ℤ}
use libtd.Types.Tick.{Tick, Direction, up, down, unchanged, Grouping}
use libtd.Parsing.Numbers.{FloatLib, int64, parse_int, parse_double}
use libtd.Parsing.Fields.{show_ℤ-Free, split_fields-join, split_fields-short}
use libtd.Parsing.TdTick.{unix_ns, windows_ticks_to_unix_epoch, parse_direction, parse_td_tick}

-- The ticks on either side of the Unix epoch whose nanoseconds a 64-bit integer holds.
abbrev pub window : ℕ
window = 92233720368547758

-- For every count of ticks from 0 up that a 64-bit integer holds, the conversion to Unix
-- nanoseconds is exact within 292 years of the epoch and overflows outside.
pub unix_ns-window :
    (n : ℕ)
    → n < int64_limit
    → unix_ns (pos n) ≡ (
        if leb windows_ticks_to_unix_epoch (n + window)
          && leb n (windows_ticks_to_unix_epoch + window)
        then ok (sub_ℕ (n * 100) (windows_ticks_to_unix_epoch * 100))
        else err undefined)
unfolding unix_ns int64
unix_ns-window n h = ground arith

module _ {D : Type 0} (F : FloatLib D) where
  -- parse_td_tick refuses a line with fewer than thirteen fields with a runtime error.
  pub parse_td_tick-short :
      (ps : List Bytes) (g : Grouping) (now : ℤ)
      → All (Free b',') ps
      → length ps < 13
      → parse_td_tick F (join b',' ps) g now ≡ err runtime_error
  unfolding parse_td_tick
  parse_td_tick-short ps g now h k = rw (split_fields-short 13 runtime_error ps h k)

pub direction_letter : Direction → Bytes
direction_letter up = codes "u"
direction_letter down = codes "d"
direction_letter unchanged = codes "e"

pub flag_digit : Bool → Bytes
flag_digit true = codes "1"
flag_digit false = codes "0"

-- The doubles of a tick as the server writes them.
pub record Texts : Type 0 where
  pub bid : Bytes
  pub ask : Bytes
  pub daily_change : Bytes
  pub high : Bytes
  pub low : Bytes
  pub mid_price : Bytes

-- Each text is one field and reads as the double of the tick.
pub record IsTextOf {D : Type 0} (F : FloatLib D) (x : Texts) (t : Tick D) : Type 0 where
  pub bid : F.read x.bid ≡ some t.bid
  pub ask : F.read x.ask ≡ some t.ask
  pub daily_change : F.read x.daily_change ≡ some t.daily_change
  pub high : F.read x.high ≡ some t.high
  pub low : F.read x.low ≡ some t.low
  pub mid_price : F.read x.mid_price ≡ some t.mid_price
  pub free :
      All (Free b',') (x.bid ∷ x.ask ∷ x.daily_change ∷ x.high ∷ x.low ∷ x.mid_price ∷ t.hash ∷ [])

module _ {D : Type 0} (x : Texts) (t : Tick D) (ticks : ℕ) where
  abbrev later_fields : List Bytes
  later_fields =
      x.ask
      ∷ x.daily_change
      ∷ direction_letter t.dir
      ∷ flag_digit t.tradable
      ∷ x.high
      ∷ x.low
      ∷ t.hash
      ∷ flag_digit t.call_only
      ∷ x.mid_price
      ∷ show_ℕ ticks
      ∷ show_ℤ t.field13
      ∷ []

  -- The thirteen fields that the server sends for a tick.
  abbrev pub server_fields : List Bytes
  server_fields = show_ℤ t.quote_id ∷ x.bid ∷ later_fields

direction-Free : (d : Direction) → Free b',' (direction_letter d)
unfolding direction_letter
direction-Free up = ground arith
direction-Free down = ground arith
direction-Free unchanged = ground arith

flag-Free : (b : Bool) → Free b',' (flag_digit b)
unfolding flag_digit
flag-Free true = ground arith
flag-Free false = ground arith

parse_direction-letter : (d : Direction) → parse_direction (direction_letter d) ≡ d
unfolding parse_direction direction_letter
parse_direction-letter up = refl
parse_direction-letter down = refl
parse_direction-letter unchanged = refl

equal-flag : (b : Bool) → equal (flag_digit b) (codes "1") ≡ b
unfolding equal flag_digit
equal-flag true = refl
equal-flag false = refl

show_ℕ-Free : (n : ℕ) → Free b',' (show_ℕ n)
unfolding show_ℤ
show_ℕ-Free n = show_ℤ-Free (pos n)

parse_int-show_ℤ : (a : ℤ) → IsInt32 a → parse_int (show_ℤ a) ≡ ok a
unfolding parse_int
parse_int-show_ℤ a h = rw (from_chars-show_ℤ int32_limit a h)

ticks-back : (n : ℕ) → n < int64_limit → from_chars int64_limit (show_ℕ n) ≡ some (pos n)
unfolding show_ℤ
ticks-back n h = from_chars-show_ℤ int64_limit (pos n) (omega arith)

int64-ok : (a : ℤ) → IsInt64 a → int64 a ≡ ok a
unfolding int64
int64-ok a h = ground arith

-- Dates whose nanoseconds fit.
abbrev pub InWindow : ℕ → Type 0
InWindow n = (windows_ticks_to_unix_epoch ≤ n + window) × (n ≤ windows_ticks_to_unix_epoch + window)

unix_ns-in :
    (n : ℕ)
    → InWindow n
    → unix_ns (pos n) ≡ ok (sub_ℕ (n * 100) (windows_ticks_to_unix_epoch * 100))
unix_ns-in n h = ground (arith, unix_ns-window n)

module _ {D : Type 0} (F : FloatLib D) where
  parse_double-eq : (s : Bytes) (d : D) → F.read s ≡ some d → parse_double F s ≡ ok d
  unfolding parse_double
  parse_double-eq s d h = rw h

  server_fields-Free :
      (x : Texts) (t : Tick D) (n : ℕ) → IsTextOf F x t → All (Free b',') (server_fields x t n)
  server_fields-Free x t n h = (
    show_ℤ-Free t.quote_id,
    (
      h.free.0,
      (
        h.free.1.0,
        (
          h.free.1.1.0,
          (
            direction-Free t.dir,
            (
              flag-Free t.tradable,
              (
                h.free.1.1.1.0,
                (
                  h.free.1.1.1.1.0,
                  (
                    h.free.1.1.1.1.1.1.0,
                    (
                      flag-Free t.call_only,
                      (h.free.1.1.1.1.1.0, (show_ℕ-Free n, (show_ℤ-Free t.field13, tt))),
                    ),
                  ),
                ),
              ),
            ),
          ),
        ),
      ),
    ),
  )

  -- A line of thirteen or more comma-separated fields, in the form in which the server sends a
  -- tick, is read as that tick with the latency counted from the clock, if the integers fit their
  -- types and the time lies in the window of 64-bit nanoseconds.
  pub parse_td_tick_lem :
      (x : Texts) (t : Tick D) (n : ℕ) (now : ℤ) (extra : List Bytes)
      → IsTextOf F x t
      → All (Free b',') extra
      → IsInt32 t.quote_id
      → IsInt32 t.field13
      → InWindow n
      → t.timestamp ≡ sub_ℕ (n * 100) (windows_ticks_to_unix_epoch * 100)
      → IsInt64 (now -ℤ t.timestamp)
      → parse_td_tick F (join b',' (server_fields x t n ++ extra)) t.group now
        ≡ ok (record t { latency = now -ℤ t.timestamp })
  unfolding parse_td_tick
  parse_td_tick_lem x t n now extra r e q f w ts lat =
      rw
        (split_fields-join runtime_error (show_ℤ t.quote_id) x.bid (later_fields x t n) extra
          (server_fields-Free x t n r) e)
        (simp (
          ticks-back n (omega arith),
          unix_ns-in n w ∙ ap ok (sym ts),
          int64-ok (now -ℤ t.timestamp) lat,
          parse_direction-letter,
          equal-flag,
          parse_int-show_ℤ t.quote_id q,
          parse_int-show_ℤ t.field13 f,
          parse_double-eq x.bid _ r.bid,
          parse_double-eq x.ask _ r.ask,
          parse_double-eq x.daily_change _ r.daily_change,
          parse_double-eq x.high _ r.high,
          parse_double-eq x.low _ r.low,
          parse_double-eq x.mid_price _ r.mid_price,
        ))
