-- ===== src/Strategy/Filling.antt =====
-- How the constructor fills the array of three candles.
use libtd.Base.{String, List, [], ◌∷◌, length, ◌≡◌, refl, arith, ok}
use libtd.Base.Stateful.{◌>>=◌, ◌>>◌, Ensures}
use libtd.Json.{JsonLib}
use libtd.Types.Tick.{Grouping}
use libtd.Types.Candle.{Candle}
use libtd.Parsing.Numbers.{FloatLib}
use libtd.HttpClient.Boost.{BoostLib}
use libtd.HttpClient.Interface.{HttpLib}
use libtd.RestApi.Backfill.{backfill-length}
use libtd.WsClient.State.{Oracle}
use libtd.Td365.State.{on_rest}
use libtd.Td365.Methods
use libtd.Strategy.Candles.{Doubles, History}
use libtd.Strategy.Aggregation as Aggregation
use libtd.Strategy.Trader.{StrategyState, on_client, backfill}

-- The array, from its first place.
abbrev pub places : {D : Type 0} → History D → List (Candle D)
places h = h.latest ∷ h.previous ∷ h.oldest ∷ []

module _ (B : BoostLib) (H : HttpLib B) {D : Type 0} (J : JsonLib D) (F : FloatLib D)
    (M : Doubles D) (write_fails : Oracle J.Json) (order : List (String × Grouping)) where
  candles_of :
      (s : StrategyState B H J F M write_fails order) (v : List (Candle D))
      → (Methods.backfill B H J F s.market.market_id 3 s.client).0 ≡ ok v
      → length v ≡ 3
  unfolding Methods.backfill on_rest Ensures
  candles_of s v h = backfill-length J F B H s.market.market_id 3 s.client.rest_client v tt h

  filled :
      (s : StrategyState B H J F M write_fails order) (v : List (Candle D))
      → length v ≡ 3
      → (Methods.backfill B H J F s.market.market_id 3 s.client).0 ≡ ok v
      → ((backfill B H J F M write_fails order s).0 ≡ ok tt)
        × (places ((backfill B H J F M write_fails order s).1.sig.agg.history) ≡ v)
  unfolding backfill on_client Aggregation.backfill ◌>>=◌ ◌>>◌
  filled s [] n h = absurd (omega (arith, n))
  filled s (a ∷ []) n h = absurd (omega (arith, n))
  filled s (a ∷ b ∷ []) n h = absurd (omega (arith, n))
  filled s (a ∷ b ∷ c ∷ []) n h = rw h (refl, refl)
  filled s (a ∷ b ∷ c ∷ d ∷ v) n h = absurd (omega (arith, n))

  -- When backfill of td365 gives candles for the market that was found, they are three, and the
  -- backfill of the demonstration program writes them into the three places of its array, in
  -- their order, and returns.
  pub backfill-places :
      (s : StrategyState B H J F M write_fails order) (v : List (Candle D))
      → (Methods.backfill B H J F s.market.market_id 3 s.client).0 ≡ ok v
      → ((backfill B H J F M write_fails order s).0 ≡ ok tt)
        × (places ((backfill B H J F M write_fails order s).1.sig.agg.history) ≡ v)
  backfill-places s v h = filled s v (candles_of s v h) h
