-- ===== src/Types/Tick.antt =====
-- include/td365/types.h: `tick` and its two enumerations. Times count nanoseconds.
use libtd.Base.{Bool}
use libtd.Base.Int.{ℤ, IsInt32, IsInt64}
use libtd.Text.{Bytes}

-- The last enumerator, `_count`, is the size of the lookup tables.
pub data Grouping : Type 0 where
  grouped sampled delayed candle_1m : Grouping

pub data Direction : Type 0 where
  up down unchanged : Direction

pub record Tick (D : Type 0) : Type 0 where
  pub quote_id : ℤ
  pub bid : D
  pub ask : D
  pub daily_change : D
  pub dir : Direction
  pub tradable : Bool
  pub high : D
  pub low : D
  pub hash : Bytes
  pub call_only : Bool
  pub mid_price : D
  pub timestamp : ℤ
  pub field13 : ℤ
  pub group : Grouping
  pub latency : ℤ

-- Every integer field holds a value of its C++ type.
pub record FitsInt {D : Type 0} (t : Tick D) : Type 0 where
  pub quote_id : IsInt32 t.quote_id
  pub timestamp : IsInt64 t.timestamp
  pub field13 : IsInt32 t.field13
  pub latency : IsInt64 t.latency
