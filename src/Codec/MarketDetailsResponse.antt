-- ===== src/Codec/MarketDetailsResponse.antt =====
-- src/types.cpp: reading `market_details_response`.
use libtd.Base.{Result, ok, ◌>>=◌}
use libtd.Json.{JsonLib, value_at}
use libtd.Types.Market.{MarketDetailsResponse}
use libtd.Codec.MarketDetails
use libtd.Codec.ClientWebOptionInfo

module _ {D : Type 0} (J : JsonLib D) where
  open J use {Json}

  unfoldable pub from_json : Json → Result (MarketDetailsResponse D)
  from_json j = do
    market_details_data ← value_at J (MarketDetails.from_json J) j "marketDetails"
    web_info ← value_at J (ClientWebOptionInfo.from_json J) j "webInfo"
    ok (record { market_details_data = market_details_data; web_info = web_info })
