-- ===== src/RestApi/Backfill.antt =====
-- How many candles `backfill` reads.
use libtd.Base.{
  ℕ, zero, suc, ◌<◌, ◌≤◌, List, [], ◌∷◌, map, All, length, take, leb, if◌then◌else◌, Bool-cases,
  inl, inr, ◌≡◌, refl, ◌∙◌, arith, ok, err, undefined, traverse-map, ap, Gives, bind-Gives,
  Gives-any, Gives-ok,
}
use libtd.Text.{Bytes}
use libtd.Json.{JsonLib, vector_at-object, read_array-of_array}
use libtd.Parsing.Numbers.{FloatLib}
use libtd.Parsing.CandleLine.{parse_candle}
use libtd.Types.Candle.{Candle}
use libtd.HttpClient.Boost.{BoostLib, Response}
use libtd.HttpClient.Client.{get_http_body}
use libtd.Base.Int.{ℤ}
use libtd.Base.Stateful.{Ensures, bind-Ensures}
use libtd.Json.{vector_at}
use libtd.HttpClient.Interface.{HttpLib}
use libtd.RestApi.Trading.{backfill}
use libtd.RestApi.Bodies.{first_candles, read_candles}

module _ {D : Type 0} (J : JsonLib D) (F : FloatLib D) where
  -- A line of the server, and the candle that is read from it.
  abbrev pub IsLineOf : Bytes × Candle D → Type 0
  IsLineOf k = parse_candle F (k.0) ≡ ok (k.1)

  abbrev pub line_texts : List (Bytes × Candle D) → List Bytes
  line_texts = map (λ k. k.0)

  abbrev pub line_candles : List (Bytes × Candle D) → List (Candle D)
  line_candles = map (λ k. k.1)

  first_candles-take :
      (ks : List (Bytes × Candle D)) (sz : ℕ)
      → All IsLineOf ks
      → sz ≤ length ks
      → first_candles J F sz (line_texts ks) ≡ ok (take sz (line_candles ks))
  unfolding first_candles
  first_candles-take ks zero h k = refl
  first_candles-take [] (suc sz) h k = absurd (omega (arith, k))
  first_candles-take (x ∷ ks) (suc sz) h k =
      rw (h.0, first_candles-take ks sz h.1 (omega (arith, k))) refl

  first_candles_short :
      (ks : List (Bytes × Candle D)) (sz : ℕ)
      → All IsLineOf ks
      → length ks < sz
      → first_candles J F sz (line_texts ks) ≡ err undefined
  unfolding first_candles
  first_candles_short ks zero h k = absurd (omega (arith, k))
  first_candles_short [] (suc sz) h k = refl
  first_candles_short (x ∷ ks) (suc sz) h k =
      rw (h.0, first_candles_short ks sz h.1 (omega (arith, k))) refl

  All-strings : (ss : List Bytes) → All (λ s. Unit {0}) ss
  All-strings [] = tt
  All-strings (s ∷ ss) = (tt, All-strings ss)

  module _ (B : BoostLib) where
    lines_read :
        (sz : ℕ) (lines : List Bytes) (text : Bytes) (response : Response (B.Fields))
        → get_http_body B response ≡ ok text
        → J.parse text ≡ ok (J.object (("data", J.of_array (map J.of_string lines)) ∷ []))
        → read_candles J F B sz response ≡ first_candles J F sz lines
    unfolding read_candles
    lines_read sz lines text response p q =
        rw
          (
            p,
            q,
            vector_at-object J J.get_string (("data", J.of_array (map J.of_string lines)) ∷ [])
                "data",
            read_array-of_array J J.get_string (map J.of_string lines),
            traverse-map J.get_string J.of_string (λ s. Unit {0}) (λ s u. J.get_string-of_string s)
                lines (All-strings lines),
          )
          refl

    -- Of an answer whose lines all read as candles, backfill gives as many candles from the front
    -- as it was asked for; when it was asked for more than there are, its behaviour is undefined.
    pub read_candles_lem :
        (sz : ℕ) (ks : List (Bytes × Candle D)) (text : Bytes) (response : Response (B.Fields))
        → get_http_body B response ≡ ok text
        → J.parse text ≡ ok (J.object (("data", J.of_array (map J.of_string (line_texts ks))) ∷ []))
        → All IsLineOf ks
        → read_candles J F B sz response
          ≡ (if leb sz (length ks) then ok (take sz (line_candles ks)) else err undefined)
    read_candles_lem sz ks text response p q h = elim (Bool-cases (leb sz (length ks))) [
      | inl enough ↦ rw enough (
          lines_read sz (line_texts ks) text response p q
          ∙ first_candles-take ks sz h (ground arith))
      | inr short ↦ rw short (
          lines_read sz (line_texts ks) text response p q
          ∙ first_candles_short ks sz h (ground arith))
    ]

module _ {D : Type 0} (J : JsonLib D) (F : FloatLib D) where
  first_candles-length :
      (sz : ℕ) (lines : List Bytes) → Gives (λ cs. length cs ≡ sz) (first_candles J F sz lines)
  unfolding first_candles Gives
  first_candles-length zero lines = refl
  first_candles-length (suc sz) [] = tt
  first_candles-length (suc sz) (l ∷ ls) =
      bind-Gives (λ c. Unit) (λ cs. length cs ≡ suc sz) (parse_candle F l) _ (Gives-any _)
        (λ c _.
          bind-Gives (λ cs. length cs ≡ sz) (λ cs. length cs ≡ suc sz) (first_candles J F sz ls) _
            (first_candles-length sz ls) (λ cs e. ap suc e))

  module _ (B : BoostLib) where
    read_candles-length :
        (sz : ℕ) (response : Response (B.Fields))
        → Gives (λ cs. length cs ≡ sz) (read_candles J F B sz response)
    unfolding read_candles
    read_candles-length sz response =
        bind-Gives (λ t. Unit) _ (get_http_body B response) _ (Gives-any _)
          (λ t _.
            bind-Gives (λ j. Unit) _ (J.parse t) _ (Gives-any _)
              (λ j _.
                bind-Gives (λ ls. Unit) _ (vector_at J J.get_string j "data") _ (Gives-any _)
                  (λ ls _. first_candles-length sz ls)))

    module _ (H : HttpLib B) where
      -- What `backfill` gives has the length that it was asked for.
      pub backfill-length :
          (market_id : ℤ) (sz : ℕ)
          → Ensures (λ s. Unit) (λ cs s. length cs ≡ sz) (backfill B H J F market_id sz)
      unfolding backfill Ensures
      backfill-length market_id sz =
          bind-Ensures (λ s. Unit) (λ u s. Unit) (λ cs s. length cs ≡ sz) _ _ (λ s u h e. tt)
            (λ url.
              bind-Ensures (λ s. Unit) (λ r s. Unit) (λ cs s. length cs ≡ sz) _ _ (λ s u h e. tt)
                (λ response s cs h e.
                  Gives-ok (λ cs. length cs ≡ sz) (read_candles J F B sz response) cs
                    (read_candles-length sz response) e))
