-- ===== src/RestApi/Calls.antt =====
-- The calls of `rest_api` but for trades and candles.
use libtd.Base.{Bool, true, false, Option, none, some, List, [], ◌∷◌, ◌++◌, Result, ok, verify}
use libtd.Base.Int.{ℤ}
use libtd.Base.Stateful.{Stateful, ◌>>=◌, ◌>>◌, give, throwing, reading, modify}
use libtd.Text.{Bytes, codes}
use libtd.Json.{JsonLib, read_array}
use libtd.CookieJar.Headers.{Cookie}
use libtd.HttpClient.Boost.{BoostLib, Headers, Response, Status, success, found, other}
use libtd.HttpClient.Interface.{HttpLib}
use libtd.RestApi.Client.{RestState, on_client, on_world, open_client}
use libtd.RestApi.Bodies.{extract_d}
use libtd.Types.Market.{Market, MarketGroup, MarketDetailsResponse}
use libtd.Codec.MarketGroup as MarketGroupCodec
use libtd.Codec.Market as MarketCodec
use libtd.Codec.MarketDetailsResponse as DetailsCodec

pub record AuthInfo : Type 0 where
  pub token : Bytes
  pub login_id : Bytes

unfoldable pub is_success : Status → Bool
is_success success = true
is_success found = false
is_success other = false

module _ (B : BoostLib) (H : HttpLib B) where
  open H use {Client, World}

  -- The headers of every request behind the login.
  abbrev pub page_headers : B.Url → Bytes → Headers
  page_headers url ots =
      (codes "Origin", B.scheme url ++ (codes "://" ++ B.host url))
      ∷ (
        codes "Referer",
        B.scheme url ++ (codes "://" ++ (B.host url ++ (codes "/Advanced.aspx?ots=" ++ ots))),
      )
      ∷ (codes "Content-Type", codes "application/json; charset=utf-8")
      ∷ (codes "X-Requested-With", codes "XMLHttpRequest")
      ∷ []

  -- `default_headers().emplace`, for one after the other.
  unfoldable pub emplace_all : Headers → Client → Client
  emplace_all [] c = c
  emplace_all ((n, v) ∷ hs) c = emplace_all hs (H.emplace n v c)

  unfoldable pub add_headers : Headers → Stateful (Client × World) (Unit {0})
  unfolding emplace_all
  add_headers hs (c, w) = (ok tt, (emplace_all hs c, w))

  unfoldable pub read_cookie : Bytes → Stateful (Client × World) Cookie
  read_cookie ots = reading (λ s. H.cookie (s.0) ots)

  unfoldable pub set_client : Client → RestState B H → RestState B H
  set_client c (r, w) = (record r { client = some c }, w)

  unfoldable pub connect : B.Url → Stateful (RestState B H) AuthInfo
  unfolding on_client on_world add_headers read_cookie set_client
  connect url = do
    c ← on_world B H (H.create url)
    modify (set_client c)
    opened ← open_client B H (B.encoded_target url)
    token ← on_client B H (read_cookie (opened.0))
    on_client B H (add_headers (page_headers url (opened.0)))
    give (record { token = token.value; login_id = opened.1 })

  unfoldable pub update_client_session_id : Stateful (RestState B H) (Response (B.Fields))
  unfolding on_client
  update_client_session_id =
      on_client B H (H.post (codes "/UTSAPI.asmx/UpdateClientSessionID") none none)

  module _ {D : Type 0} (J : JsonLib D) where
    unfoldable pub make_post :
        {Value : Type 0}
        → (J.Json → Result Value)
        → Bytes
        → Option Bytes
        → Option Headers
        → Stateful (RestState B H) Value
    unfolding on_client is_success extract_d
    make_post read target body headers = do
      response ← on_client B H (H.post target body headers)
      throwing (verify (is_success response.status))
      throwing (extract_d B J read response)

    unfoldable pub get_market_super_group : Stateful (RestState B H) (List MarketGroup)
    unfolding make_post
    get_market_super_group =
        make_post (read_array J (MarketGroupCodec.from_json J))
          (codes "/UTSAPI.asmx/GetMarketSuperGroup") none none

    unfoldable pub get_market_group : ℤ → Stateful (RestState B H) (List MarketGroup)
    unfolding make_post
    get_market_group super_group_id =
        make_post (read_array J (MarketGroupCodec.from_json J))
          (codes "/UTSAPI.asmx/GetMarketGroup")
          (some (J.dump (J.object (("superGroupId", J.of_int super_group_id) ∷ [])))) none

    unfoldable pub get_market_quote : ℤ → Stateful (RestState B H) (List (Market D))
    unfolding make_post
    get_market_quote group_id =
        make_post (read_array J (MarketCodec.from_json J)) (codes "/UTSAPI.asmx/GetMarketQuote")
          (some (
            J.dump (
              J.object (
                ("groupID", J.of_int group_id)
                ∷ ("keyword", J.of_string [])
                ∷ ("popular", J.of_bool false)
                ∷ ("portfolio", J.of_bool false)
                ∷ ("search", J.of_bool false)
                ∷ []))))
          none

    unfoldable pub get_market_details : ℤ → Stateful (RestState B H) (MarketDetailsResponse D)
    unfolding make_post
    get_market_details market_id = do
      url ← reading (λ s. s.0.get_market_details_url)
      make_post (DetailsCodec.from_json J) url
          (some (J.dump (J.object (("marketID", J.of_int market_id) ∷ [])))) none
