-- ===== src/Tests/Trades.antt =====
-- Candles and signals on concrete ticks. A bucket is a minute; the price is the fourth part of a dollar.
use libtd.Base.{◌+◌, ◌*◌, true, false, ℕ, List, [], ◌∷◌, ◌≡◌, refl, arith}
use libtd.Base.Int.{ℤ, pos, ltb_ℤ, ◌+ℤ◌, ◌-ℤ◌}
use libtd.Types.Tick.{Tick}
use libtd.Strategy.Candles.{Doubles, CandleAgg, create, roll, tick_bucket, on_tick}
use libtd.Strategy.Aggregation.{Summarises, on_ticks, prices, on_tick-Summarises}
use libtd.Strategy.Signals.{Signal, Signals, buy, sell}
use libtd.Strategy.Signals as Signalling
use libtd.Strategy.Alerts.{Alternates, alerts, alerts-Alternates}
use libtd.Tests.Values.{a_tick}

pub less_irrefl : (a : ℤ) → ltb_ℤ a a ≡ false
less_irrefl a = ground arith

pub less_trans : (a b c : ℤ) → ltb_ℤ a b ≡ true → ltb_ℤ b c ≡ true → ltb_ℤ a c ≡ true
less_trans a b c h k = ground arith

abbrev pub doubles : Doubles ℤ
doubles = record {
  nought = pos 0;
  one = pos 1;
  ten = pos 10;
  less = ltb_ℤ;
  add = ◌+ℤ◌;
  sub = ◌-ℤ◌;
  less_irrefl = less_irrefl;
  less_trans = less_trans;
}

-- A tick with a price, so many minutes after the epoch.
abbrev tick_at : ℕ → ℕ → ℤ × Tick ℤ
tick_at minute price = (
  pos (minute * 60000000000 + 5),
  record a_tick { timestamp = pos (minute * 60000000000 + 3); mid_price = pos price },
)

abbrev started : CandleAgg ℤ
started = create doubles (pos 60000000000)

abbrev in_the_minute : List (ℤ × Tick ℤ)
in_the_minute = tick_at 2 9 ∷ tick_at 2 3 ∷ tick_at 2 7 ∷ []

on_tick-Summarises_example :
    Summarises doubles
      (pos 5)
      (prices doubles in_the_minute)
      (on_ticks doubles in_the_minute
        (on_tick doubles (pos 120000000005) ((tick_at 2 5).1) started)).current
    × ((on_ticks doubles in_the_minute
          (on_tick doubles (pos 120000000005) ((tick_at 2 5).1) started)).history
        ≡ roll doubles (started.current) (started.history))
unfolding tick_bucket create
on_tick-Summarises_example =
    on_tick-Summarises doubles (pos 120000000005) ((tick_at 2 5).1) in_the_minute started (λ e. cc)
      (refl, (refl, (refl, tt)))

abbrev watching : Signals ℤ
watching = record { last_signal = Signal.none; agg = started }

abbrev rising : List (ℤ × Tick ℤ)
rising = tick_at 2 5 ∷ tick_at 3 6 ∷ tick_at 4 7 ∷ tick_at 5 8 ∷ tick_at 6 9 ∷ tick_at 7 8 ∷ []

-- The empty candle that the object starts with counts as one before the first.
rising-alerts :
    alerts doubles rising watching
    ≡ Signal.none ∷ Signal.none ∷ Signal.buy ∷ Signal.none ∷ Signal.none ∷ Signal.none ∷ []
unfolding alerts Signalling.on_tick create
rising-alerts = refl

alerts-Alternates_example : Alternates Signal.none (alerts doubles rising watching)
alerts-Alternates_example = alerts-Alternates doubles rising watching
