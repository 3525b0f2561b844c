-- ===== src/Strategy/Candles.antt =====
-- `candle_agg`: candles of a minute, built from ticks, and the trend of the last three.
use libtd.Base.{
  ℕ, zero, suc, ◌+◌, ◌/◌, Bool, true, false, ◌&&◌, ltb, if◌then◌else◌, ◌≡◌, Result, ok, err,
  undefined,
}
use libtd.Base.Int.{ℤ, pos, negsuc, sub_ℕ, eqb_ℤ}
use libtd.Types.Tick.{Tick}
use libtd.Types.Candle.{Candle}

-- Doubles: three constants, `<`, `+` and `-`. Of the order, what holds of numbers that are no numbers too.
pub record Doubles (D : Type 0) : Type 0 where
  pub nought : D
  pub one : D
  pub ten : D
  pub less : D → D → Bool
  pub add : D → D → D
  pub sub : D → D → D
  pub less_irrefl : (a : D) → less a a ≡ false
  pub less_trans : (a b c : D) → less a b ≡ true → less b c ≡ true → less a c ≡ true

-- The quotient of integers, which C++ cuts off towards zero.
unfoldable pub quotient : ℤ → ℕ → ℤ
quotient (pos n) k = pos (n / k)
quotient (negsuc n) k = sub_ℕ 0 (suc n / k)

abbrev pub nanoseconds : ℕ
nanoseconds = 1000000000

abbrev pub candle_seconds : ℕ
candle_seconds = 60

-- `duration_cast<std::chrono::seconds>`
unfoldable pub seconds_of : ℤ → ℤ
unfolding quotient
seconds_of t = quotient t nanoseconds

unfoldable pub tick_bucket : ℤ → ℤ
unfolding seconds_of quotient
tick_bucket t = quotient (seconds_of t) candle_seconds

-- The array of three: the candle before the current one, and the two before that.
pub record History (D : Type 0) : Type 0 where
  pub latest : Candle D
  pub previous : Candle D
  pub oldest : Candle D

pub record CandleAgg (D : Type 0) : Type 0 where
  pub history : History D
  pub current : Candle D
  pub elapsed_candles : ℕ
  pub current_bucket : ℤ

module _ {D : Type 0} (F : Doubles D) where
  open F use {nought, less}

  unfoldable pub max : D → D → D
  max a b = if less a b then b else a

  unfoldable pub min : D → D → D
  min a b = if less b a then b else a

  -- `candle{}`
  unfoldable pub no_candle : Candle D
  no_candle = record {
    timestamp = pos 0;
    open_price = nought;
    high = nought;
    low = nought;
    close = nought;
    volume = nought;
  }

  -- A new object, at a time of the system clock.
  unfoldable pub create : ℤ → CandleAgg D
  unfolding no_candle tick_bucket
  create now = record {
    history = record { latest = no_candle; previous = no_candle; oldest = no_candle };
    current = no_candle;
    elapsed_candles = 0;
    current_bucket = tick_bucket now;
  }

  unfoldable pub roll : Candle D → History D → History D
  roll c h = record { latest = c; previous = h.latest; oldest = h.previous }

  unfoldable pub start_candle : ℤ → D → Candle D
  unfolding seconds_of
  start_candle now price = record {
    timestamp = seconds_of now;
    open_price = price;
    high = price;
    low = price;
    close = price;
    volume = nought;
  }

  unfoldable pub extend : D → Candle D → Candle D
  unfolding max min
  extend price c = record c { high = max c.high price; low = min c.low price; close = price }

  -- `now` is the system clock.
  unfoldable pub on_tick : ℤ → Tick D → CandleAgg D → CandleAgg D
  unfolding tick_bucket roll start_candle extend
  on_tick now t s =
      if eqb_ℤ (tick_bucket t.timestamp) s.current_bucket
      then record s { current = extend t.mid_price s.current }
      else record s {
        history = roll s.current s.history;
        current = start_candle now t.mid_price;
        current_bucket = tick_bucket t.timestamp;
        elapsed_candles = s.elapsed_candles + 1;
      }

  unfoldable pub trending_up : CandleAgg D → Bool
  trending_up s =
      ltb 2 s.elapsed_candles
      && (less s.history.previous.close s.history.latest.close
          && less s.history.oldest.open_price s.history.previous.open_price)

  unfoldable pub trending_down : CandleAgg D → Bool
  trending_down s =
      ltb 2 s.elapsed_candles
      && (less s.history.latest.close s.history.previous.close
          && less s.history.previous.open_price s.history.oldest.open_price)

-- `history[i] = c`: a write past the end is undefined.
unfoldable pub write : {D : Type 0} → ℕ → Candle D → History D → Result (History D)
write zero c h = ok (record h { latest = c })
write (suc zero) c h = ok (record h { previous = c })
write (suc (suc zero)) c h = ok (record h { oldest = c })
write (suc (suc (suc n))) c h = err undefined
