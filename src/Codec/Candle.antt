-- ===== src/Codec/Candle.antt =====
-- src/types.cpp: the JSON form of `candle`.
use libtd.Base.{◌≡◌, Result, ok, ◌>>=◌, [], ◌∷◌}
use libtd.Base.Int.{pos}
use libtd.Json.{JsonLib, double_at, codec_laws}
use libtd.Types.Candle.{Candle}

module _ {D : Type 0} (J : JsonLib D) where
  open J use {Json, of_int, of_bool, of_string, of_double, object}

  unfoldable pub to_json : Candle D → Json
  to_json c = object (
      ("open", of_double c.open_price)
      ∷ ("high", of_double c.high)
      ∷ ("low", of_double c.low)
      ∷ ("close", of_double c.close)
      ∷ ("volume", of_double c.volume)
      ∷ [])

  unfoldable pub from_json : Json → Result (Candle D)
  from_json j = do
    open_price ← double_at J j "open"
    high ← double_at J j "high"
    low ← double_at J j "low"
    close ← double_at J j "close"
    volume ← double_at J j "volume"
    ok (record {
      timestamp = pos 0;
      open_price = open_price;
      high = high;
      low = low;
      close = close;
      volume = volume;
    })

  -- from_json reads back the five numbers of the candle that to_json writes; its time comes back
  -- as the epoch.
  pub from_json-candle :
      (c : Candle D) → from_json (to_json c) ≡ ok (record c { timestamp = pos 0 })
  unfolding from_json to_json
  from_json-candle c = simp codec_laws
