-- ===== src/RestApi/Placing.antt =====
-- A trade is requested only behind its simulation.
use libtd.Base.{
  Bool, true, false, Option, none, some, ◌≡◌, refl, arith, Result, ok, err, Gives, Gives-any,
  Gives-ok, verify, ◌≢◌,
}
use libtd.Base.Int.{ℤ}
use libtd.Base.Stateful.{Stateful, ◌>>=◌, ◌>>◌, continue, throwing}
use libtd.Text.{Bytes, codes, equal}
use libtd.Json.{JsonLib}
use libtd.Parsing.Numbers.{FloatLib}
use libtd.Types.Trade.{TradeRequest, TradeResponse}
use libtd.HttpClient.Boost.{BoostLib, Headers, Response}
use libtd.HttpClient.Interface.{HttpLib}
use libtd.RestApi.Client.{RestState, on_client, on_pointer}
use libtd.RestApi.Bodies.{trade_body}
use libtd.RestApi.Calls.{is_success, make_post, get_market_details}
use libtd.RestApi.Trading.{sim_trade, place_trade}

-- Whether a request is one for a trade.
abbrev pub asks_trade : Bytes → Bool
asks_trade target = equal target (codes "/UTSAPI.asmx/RequestTrade")

module _ (B : BoostLib) (H : HttpLib B) (P : H.Client × H.World → Type 0) where
  open H use {Client, World}

  abbrev pub Held : Option Client → World → Type 0
  Held none w = Unit
  Held (some c) w = P (c, w)

  -- The property holds of the client of rest_api, if it has one, and the target for the details of a
  -- market is not that for a trade.
  pub record IsUntraded (s : RestState B H) : Type 0 where
    pub held : Held (s.0.client) (s.1)
    pub apart : asks_trade (s.0.get_market_details_url) ≡ false

  -- No request but one for a trade ends the property.
  pub record EndsByTrade : Type 0 where
    pub post-other :
        (target : Bytes) (body : Option Bytes) (headers : Option Headers) (t : Client × World)
        → asks_trade target ≡ false
        → P t
        → P ((H.post target body headers t).1)

  -- A call keeps the property, and what it gives has another.
  KeepsGiving : {V : Type 0} → (V → Type 0) → Stateful (RestState B H) V → Type 0
  KeepsGiving R call =
      (s : RestState B H) → IsUntraded s → IsUntraded ((call s).1) × Gives R ((call s).0)

  continue-KeepsGiving :
      {V W : Type 0} (R : V → Type 0) (S : W → Type 0) (statements : V → Stateful (RestState B H) W)
      (outcome : Result V × RestState B H)
      → ((v : V) → R v → KeepsGiving S (statements v))
      → IsUntraded (outcome.1)
      → Gives R (outcome.0)
      → IsUntraded ((continue statements outcome).1) × Gives S ((continue statements outcome).0)
  unfolding Gives KeepsGiving
  continue-KeepsGiving R S statements (ok v, s) rest h g = rest v g s h
  continue-KeepsGiving R S statements (err e, s) rest h g = (h, tt)

  bind-KeepsGiving :
      {V W : Type 0} (R : V → Type 0) (S : W → Type 0) (first : Stateful (RestState B H) V)
      (statements : V → Stateful (RestState B H) W)
      → KeepsGiving R first
      → ((v : V) → R v → KeepsGiving S (statements v))
      → KeepsGiving S (first >>= statements)
  unfolding ◌>>=◌ KeepsGiving
  bind-KeepsGiving R S first statements keeps rest s h =
      continue-KeepsGiving R S statements (first s) rest (keeps s h).0 (keeps s h).1

  then-KeepsGiving :
      {W : Type 0} (R : Unit {0} → Type 0) (S : W → Type 0)
      (first : Stateful (RestState B H) (Unit {0})) (statements : Stateful (RestState B H) W)
      → KeepsGiving R first
      → (R tt → KeepsGiving S statements)
      → KeepsGiving S (first >> statements)
  unfolding ◌>>◌ KeepsGiving
  then-KeepsGiving R S first statements keeps rest s h =
      continue-KeepsGiving R S (λ _. statements) (first s) (λ u g. rest g) (keeps s h).0
        (keeps s h).1

  throwing-KeepsGiving :
      {V : Type 0} (R : V → Type 0) (r : Result V) → Gives R r → KeepsGiving R (throwing r)
  unfolding KeepsGiving
  throwing-KeepsGiving R r g s h = (h, g)

  Gives-all : {V : Type 0} (S : V → Type 0) (r : Result V) → ((v : V) → S v) → Gives S r
  unfolding Gives
  Gives-all S (ok v) h = h v
  Gives-all S (err e) h = tt

  Gives-each : {V : Type 0} (S : V → Type 0) (r : Result V) → ((v : V) → r ≡ ok v → S v) → Gives S r
  unfolding Gives
  Gives-each S (ok v) h = h v refl
  Gives-each S (err e) h = tt

  true-ne-false : {b : Bool} → b ≡ true → b ≡ false → ⊥
  true-ne-false h k = ground arith

  verify-Gives : (b : Bool) → Gives (λ u. b ≡ true) (verify b)
  unfolding Gives
  verify-Gives true = refl
  verify-Gives false = tt

  pointer-KeepsGiving :
      {V : Type 0} (R : V → Type 0) (call : Stateful (Client × World) V) (pointer : Option Client)
      (s : RestState B H)
      → ((t : Client × World) → P t → P ((call t).1) × Gives R ((call t).0))
      → Held pointer (s.1)
      → IsUntraded s
      → IsUntraded ((on_pointer B H call pointer s).1) × Gives R ((on_pointer B H call pointer s).0)
  unfolding on_pointer Gives
  pointer-KeepsGiving R call none s keeps h u = (u, tt)
  pointer-KeepsGiving R call (some c) s keeps h u =
      (record { held = (keeps (c, s.1) h).0; apart = u.apart }, (keeps (c, s.1) h).1)

  client-KeepsGiving :
      {V : Type 0} (R : V → Type 0) (call : Stateful (Client × World) V)
      → ((t : Client × World) → P t → P ((call t).1) × Gives R ((call t).0))
      → KeepsGiving R (on_client B H call)
  unfolding on_client KeepsGiving
  client-KeepsGiving R call keeps s h = pointer-KeepsGiving R call (s.0.client) s keeps h.held h

  module _ {D : Type 0} (J : JsonLib D) (F : FloatLib D) where
    make_post-KeepsGiving :
        {V : Type 0} (R : Response (B.Fields) → Type 0) (S : V → Type 0) (read : J.Json → Result V)
        (target : Bytes) (body : Option Bytes) (given : Option Headers)
        → ((t : Client × World)
            → P t
            → P ((H.post target body given t).1) × Gives R ((H.post target body given t).0))
        → ((response : Response (B.Fields))
            → R response
            → is_success response.status ≡ true
            → (v : V) → S v)
        → KeepsGiving S (make_post B H J read target body given)
    unfolding make_post
    make_post-KeepsGiving R S read target body given keeps met =
        bind-KeepsGiving R S _ _ (client-KeepsGiving R (H.post target body given) keeps)
          (λ response r.
            then-KeepsGiving (λ u. is_success response.status ≡ true) S _ _
              (throwing-KeepsGiving _ _ (verify-Gives (is_success response.status)))
              (λ fine. throwing-KeepsGiving S _ (Gives-all S _ (met response r fine))))

    details-KeepsGiving :
        (market_id : ℤ) → EndsByTrade → KeepsGiving (λ d. Unit) (get_market_details B H J market_id)
    unfolding get_market_details KeepsGiving Gives
    details-KeepsGiving market_id ends =
        bind-KeepsGiving (λ url. asks_trade url ≡ false) _ _ _ (λ s h. (h, h.apart))
          (λ url other.
            make_post-KeepsGiving (λ r. Unit) _ _ url _ _
              (λ t p. (ends.post-other url _ _ t other p, Gives-any _)) (λ response r fine v. tt))

    -- The server accepts no simulation of the trade.
    abbrev pub Refuses : TradeRequest D → Type 0
    Refuses request =
        (t : Client × World) (response : Response (B.Fields))
        → (H.post (codes "/UTSAPI.asmx/RequestTradeSimulate")
            (some (J.dump (trade_body J F request))) none t).0
          ≡ ok response
        → is_success response.status ≡ false

    sim_trade-KeepsGiving :
        (request : TradeRequest D)
        → EndsByTrade
        → Refuses request
        → KeepsGiving (λ u. ⊥) (sim_trade B H J F request)
    unfolding sim_trade equal
    sim_trade-KeepsGiving request ends refuses =
        bind-KeepsGiving (λ v. ⊥) (λ u. ⊥) _ _
          (make_post-KeepsGiving (λ r. is_success r.status ≡ false) (λ v. ⊥) _ _ _ _
            (λ t p. (ends.post-other _ _ _ t refl p, Gives-each _ _ (refuses t)))
            (λ response refused fine v. true-ne-false fine refused))
          (λ v none. absurd none)

    -- If the server accepts no simulation of a trade, td365::trade gives no response, and leaves
    -- every property of the client and the world that each request but one for a trade keeps, if
    -- the request for the details of the market is not one for a trade.
    pub place_trade_unsimulated :
        (request : TradeRequest D) (s : RestState B H)
        → EndsByTrade
        → Refuses request
        → IsUntraded s
        → IsUntraded ((place_trade B H J F request s).1)
          × ((response : TradeResponse) → (place_trade B H J F request s).0 ≢ ok response)
    unfolding place_trade KeepsGiving
    place_trade_unsimulated request s ends refuses h =
        let kept =
          bind-KeepsGiving (λ d. Unit) (λ r. ⊥) (get_market_details B H J request.market_id) _
            (details-KeepsGiving request.market_id ends)
            (λ d _.
              then-KeepsGiving (λ u. ⊥) (λ r. ⊥) _ _ (sim_trade-KeepsGiving request ends refuses)
                (λ none. absurd none))
            s h in
        (kept.0, λ response e. Gives-ok (λ r. ⊥) _ response kept.1 e)
