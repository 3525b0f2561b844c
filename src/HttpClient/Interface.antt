-- ===== src/HttpClient/Interface.antt =====
-- The HTTP client as the code above it sees it. HttpClient/Service fills it with the model of
-- src/http_client.cpp.
use libtd.Base.{Option, [], ◌∷◌, ◌++◌, ◌≡◌}
use libtd.Base.Stateful.{Stateful, ◌>>=◌}
use libtd.Text.{Bytes}
use libtd.CookieJar.Headers.{Cookie}
use libtd.HttpClient.Boost.{BoostLib, Headers, Response}

-- `http_client`: the constructor, `get`, `post`, `default_headers().emplace` and `jar().get`.
pub record HttpLib (B : BoostLib) : Type 1 where
  pub Client : Type 0
  pub World : Type 0
  pub create : B.Url → Stateful World Client
  pub get : Bytes → Stateful (Client × World) (Response (B.Fields))
  pub post : Bytes → Option Bytes → Option Headers → Stateful (Client × World) (Response (B.Fields))
  pub emplace : Bytes → Bytes → Client → Client
  pub cookie : Client → Bytes → Cookie
  pub default_headers : Client → Headers
  pub headers-emplace :
      (n v : Bytes) (c : Client)
      → default_headers (emplace n v c) ≡ default_headers c ++ (n, v) ∷ []
  pub headers-get :
      (target : Bytes) (s : Client × World)
      → default_headers ((get target s).1.0) ≡ default_headers (s.0)
  pub headers-post :
      (target : Bytes) (body : Option Bytes) (headers : Option Headers) (s : Client × World)
      → default_headers ((post target body headers s).1.0) ≡ default_headers (s.0)

module _ (B : BoostLib) (H : HttpLib B) where
  with_fresh :
      {Value : Type 0} → Stateful (H.Client × H.World) Value → H.Client → Stateful (H.World) Value
  with_fresh call c w = ((call (c, w)).0, (call (c, w)).1.1)

  -- A call of a client made for it alone, which is gone behind it.
  unfoldable pub apart :
      {Value : Type 0} → B.Url → Stateful (H.Client × H.World) Value → Stateful (H.World) Value
  unfolding with_fresh
  apart url call = do hc ← H.create url; with_fresh call hc
