-- ===== src/Codec/RoundTrips.antt =====
-- src/types.cpp: the flat types, written and read back.
use libtd.Base.{◌≡◌, ok}
use libtd.Json.{JsonLib}
use libtd.Types.Tick
use libtd.Types.Market
use libtd.Types.Trade
use libtd.Types.Account
use libtd.Codec.Tick as TickCodec
use libtd.Codec.Market as MarketCodec
use libtd.Codec.MarketGroup as GroupCodec
use libtd.Codec.RequestTradeSimulate as SimulateCodec
use libtd.Codec.AccountSummary as SummaryCodec
use libtd.Codec.Candle as CandleCodec
use libtd.Types.Candle
use libtd.Base.Int.{pos}

module _ {D : Type 0} (J : JsonLib D) where
  -- from_json reads back the tick, the market, the market group, the simulated trade request and
  -- the account summary that to_json writes, if the integers fit, and the five numbers of a
  -- candle, whose time comes back as the epoch.
  pub from_json-to_json :
      (t : Tick.Tick D) (m : Market.Market D) (g : Market.MarketGroup)
      (r : Trade.RequestTradeSimulate D) (a : Account.AccountSummary D) (c : Candle.Candle D)
      → Tick.FitsInt t
      → MarketCodec.FitsInt m
      → GroupCodec.FitsInt g
      → SimulateCodec.FitsInt r
      → SummaryCodec.FitsInt a
      → (TickCodec.from_json J (TickCodec.to_json J t) ≡ ok t)
        × (MarketCodec.from_json J (MarketCodec.to_json J m) ≡ ok m)
        × (GroupCodec.from_json J (GroupCodec.to_json J g) ≡ ok g)
        × (SimulateCodec.from_json J (SimulateCodec.to_json J r) ≡ ok r)
        × (SummaryCodec.from_json J (SummaryCodec.to_json J a) ≡ ok a)
        × (CandleCodec.from_json J (CandleCodec.to_json J c) ≡ ok (record c { timestamp = pos 0 }))
  from_json-to_json t m g r a c th mh gh rh ah = (
    TickCodec.from_json-tick J t th,
    MarketCodec.from_json-market J m mh,
    GroupCodec.from_json-market_group J g gh,
    SimulateCodec.from_json-simulation J r rh,
    SummaryCodec.from_json-account_summary J a ah,
    CandleCodec.from_json-candle J c,
  )
