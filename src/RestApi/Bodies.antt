-- ===== src/RestApi/Bodies.antt =====
-- The bodies of the requests and of the answers of `rest_api`.
use libtd.Base.{ℕ, zero, suc, Bool, true, false, List, [], ◌∷◌, Result, ok, err, ◌>>=◌, undefined}
use libtd.Base.Int.{pos}
use libtd.Text.{Bytes, codes}
use libtd.Json.{JsonLib, value_at, vector_at}
use libtd.Parsing.Numbers.{FloatLib}
use libtd.Parsing.CandleLine.{parse_candle}
use libtd.Types.Candle.{Candle}
use libtd.Types.Trade.{TradeRequest, Direction, buy, sell}
use libtd.HttpClient.Boost.{BoostLib, Response}
use libtd.HttpClient.Client.{get_http_body}

unfoldable pub is_sell : Direction → Bool
is_sell buy = false
is_sell sell = true

module _ {D : Type 0} (J : JsonLib D) (F : FloatLib D) where
  open J use {of_int, of_bool, of_string, of_double}

  -- The body of RequestTrade and RequestTradeSimulate.
  unfoldable pub trade_body : TradeRequest D → J.Json
  unfolding is_sell
  trade_body request = J.object (
      ("marketID", of_int request.market_id)
      ∷ ("quoteID", of_int request.quote_id)
      ∷ ("price", of_double request.price)
      ∷ ("stake", of_string (F.fixed request.stake))
      ∷ ("tradeType", of_int (pos 1))
      ∷ ("tradeMode", of_bool (is_sell request.dir))
      ∷ ("hasClosingOrder", of_bool true)
      ∷ ("isGuaranteed", of_bool false)
      ∷ ("orderModeID", of_int (pos 3))
      ∷ ("orderTypeID", of_int (pos 2))
      ∷ ("orderPriceModeID", of_int (pos 2))
      ∷ ("limitOrderPrice", of_string (F.fixed request.limit))
      ∷ ("stopOrderPrice", of_string (F.fixed request.stop))
      ∷ ("trailingPoint", of_int (pos 0))
      ∷ ("closePositionID", of_int (pos 0))
      ∷ ("isKaazingFeed", of_bool true)
      ∷ ("userAgent", of_string (codes "Firefox (139.0)"))
      ∷ ("key", of_string request.key)
      ∷ [])

  -- The loop of `backfill`: `data[i]` past the end is undefined.
  unfoldable pub first_candles : ℕ → List Bytes → Result (List (Candle D))
  unfolding parse_candle
  first_candles zero data_lines = ok []
  first_candles (suc sz) [] = err undefined
  first_candles (suc sz) (l ∷ ls) = do c ← parse_candle F l; cs ← first_candles sz ls; ok (c ∷ cs)

  module _ (B : BoostLib) where
    -- `backfill`, from the response on.
    unfoldable pub read_candles : ℕ → Response (B.Fields) → Result (List (Candle D))
    unfolding get_http_body first_candles
    read_candles sz response = do
      text ← get_http_body B response
      j ← J.parse text
      lines ← vector_at J J.get_string j "data"
      first_candles sz lines

module _ (B : BoostLib) {D : Type 0} (J : JsonLib D) where
  -- `make_post` from the response on, with `extract_d`.
  unfoldable pub extract_d :
      {Value : Type 0} → (J.Json → Result Value) → Response (B.Fields) → Result Value
  unfolding get_http_body
  extract_d read response = do
    text ← get_http_body B response
    j ← J.parse text
    value_at J read j "d"
