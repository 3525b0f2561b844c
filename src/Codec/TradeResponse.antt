-- ===== src/Codec/TradeResponse.antt =====
-- src/types.cpp: `trade_response`, whose two functions have empty bodies. The value that `get` starts
-- from is value-initialised.
use libtd.Base.{[], false, Result, ok}
use libtd.Base.Int.{pos}
use libtd.Json.{JsonLib}
use libtd.Types.Trade.{TradeResponse}

abbrev pub empty_response : TradeResponse
empty_response = record { accepted = false; message = []; order_id = pos 0; status_code = pos 0 }

module _ {D : Type 0} (J : JsonLib D) where
  open J use {Json, null}

  unfoldable pub to_json : TradeResponse → Json
  to_json r = null

  unfoldable pub from_json : Json → Result TradeResponse
  from_json j = ok empty_response
