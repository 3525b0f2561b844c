-- ===== src/Strategy/Signals.antt =====
-- `signals`: what the trend of the candles tells to do.
use libtd.Base.{Bool, true, false, if◌then◌else◌}
use libtd.Base.Int.{ℤ}
use libtd.Types.Tick.{Tick}
use libtd.Strategy.Candles.{Doubles, CandleAgg, trending_up, trending_down}
use libtd.Strategy.Candles as Candles

-- `signals::value`
pub data Signal : Type 0 where
  none buy sell : Signal

pub record Signals (D : Type 0) : Type 0 where
  pub last_signal : Signal
  pub agg : CandleAgg D

unfoldable pub same_signal : Signal → Signal → Bool
same_signal Signal.none Signal.none = true
same_signal Signal.none buy = false
same_signal Signal.none sell = false
same_signal buy Signal.none = false
same_signal buy buy = true
same_signal buy sell = false
same_signal sell Signal.none = false
same_signal sell buy = false
same_signal sell sell = true

module _ {D : Type 0} where
  unfoldable pub alert : Signal → Signals D → Signal × Signals D
  unfolding same_signal
  alert v s =
      if same_signal v s.last_signal then (Signal.none, s) else (v, record s { last_signal = v })

  module _ (F : Doubles D) where
    -- What follows the tick that the candles have taken in.
    unfoldable pub judge : Signals D → Signal × Signals D
    unfolding alert trending_up trending_down
    judge s =
        if trending_up F s.agg
        then alert buy s
        else if trending_down F s.agg
        then alert sell s
        else (Signal.none, s)

    unfoldable pub on_tick : ℤ → Tick D → Signals D → Signal × Signals D
    unfolding judge Candles.on_tick
    on_tick now t s = judge (record s { agg = Candles.on_tick F now t s.agg })
