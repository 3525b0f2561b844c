-- ===== src/HttpClient/Service.antt =====
-- The HTTP client as `rest_api` and `authenticator` see it.
use libtd.Base.{Option, none, [], ◌∷◌, ◌++◌, ◌≡◌, refl}
use libtd.Text.{Bytes}
use libtd.CookieJar.Jar.{get}
use libtd.HttpClient.Boost.{BoostLib, Network, Headers, get_verb, post_verb}
use libtd.HttpClient.Client.{Client, ClientState, create, get_request, post_request}
use libtd.HttpClient.Keeping.{send-headers}
use libtd.HttpClient.Interface.{HttpLib}

-- `default_headers().emplace`, for a multimap.
unfoldable pub emplace : {Socket : Type 0} → Bytes → Bytes → Client Socket → Client Socket
emplace n v c = record c { default_headers = c.default_headers ++ (n, v) ∷ [] }

module _ (B : BoostLib) (N : Network B) where
  pub headers-get :
      (target : Bytes) (s : ClientState B N)
      → (get_request B N target none s).1.0.default_headers ≡ s.0.default_headers
  unfolding get_request
  headers-get target s = send-headers B N get_verb target none none s

  pub headers-post :
      (target : Bytes) (body : Option Bytes) (headers : Option Headers) (s : ClientState B N)
      → (post_request B N target body headers s).1.0.default_headers ≡ s.0.default_headers
  unfolding post_request
  headers-post target body headers s = send-headers B N post_verb target body headers s

  pub headers-emplace :
      (n v : Bytes) (c : Client (N.Socket))
      → (emplace n v c).default_headers ≡ c.default_headers ++ (n, v) ∷ []
  unfolding emplace
  headers-emplace n v c = refl

  abbrev pub http_lib : HttpLib B
  http_lib = record {
    Client = Client (N.Socket);
    World = N.World;
    create = create B N;
    get = λ target. get_request B N target none;
    post = post_request B N;
    emplace = emplace;
    cookie = λ c. get c.jar;
    default_headers = λ c. c.default_headers;
    headers-emplace = headers-emplace;
    headers-get = headers-get;
    headers-post = headers-post;
  }
