-- ===== src/Types/Candle.antt =====
-- include/td365/types.h: `candle`. The time point counts seconds from the epoch; `open` is a reserved word here.
use libtd.Base.Int.{ℤ}

pub record Candle (D : Type 0) : Type 0 where
  pub timestamp : ℤ
  pub open_price : D
  pub high : D
  pub low : D
  pub close : D
  pub volume : D

-- `chart_duration`, of which `backfill` takes no notice.
pub data ChartDuration : Type 0 where
  m1 : ChartDuration
