-- ===== src/Tests/Portal.antt =====
-- Calls behind the login, and tokens, on the libraries of the tests.
use libtd.Base.{
  Option, ◌++◌, String, true, if◌then◌else◌, none, some, List, [], ◌∷◌, map, take, leb, ◌≡◌, refl,
  arith, ok, err, undefined, or_throw, runtime_error,
}
use libtd.Base.Int.{ℤ, pos, leb_ℤ, ◌*ℤ◌, IsInt32}
use libtd.Base.Stateful.{◌>>=◌, ◌>>◌}
use libtd.Text.{Bytes, codes, equal}
use libtd.Types.Candle.{Candle}
use libtd.HttpClient.Boost.{same_name, Headers, Response, success}
use libtd.HttpClient.Client.{
  create, get_request, post_request, send, ensure_connected, open_stream, set_host_name, td_resolve,
  prepare, attempt, exchange, rethrow, update_jar, keep_jar, request_of, ready, left_jar, on_stream,
  on_world, address, get_http_body,
}
use libtd.HttpClient.Requests.{build}
use libtd.CookieJar.Headers.{session}
use libtd.CookieJar.Jar.{apply, update}
use libtd.CookieJar.File as JarFile
use libtd.Parsing.Fields.{split_fields}
use libtd.Text.Split.{split}
use libtd.Text.Decimal.{from_chars}
use libtd.Parsing.Numbers.{string_to_timepoint, parse_double}
use libtd.Parsing.CandleLine.{to_seconds, parse_candle}
use libtd.HttpClient.Interface.{apart, HttpLib}
use libtd.HttpClient.Service.{http_lib}
use libtd.RestApi.Calls.{is_success}
use libtd.RestApi.Backfill.{IsLineOf, line_candles, read_candles_lem}
use libtd.RestApi.Bodies.{read_candles}
use libtd.Authenticator.Token.{AuthToken, no_token, load, save, token_json, granted}
use libtd.Authenticator.TokenFile.{in_seconds, first_named, account_in-first_named}
use libtd.Authenticator.Accounts.{account_in, parse_body}
use libtd.Authenticator.Login.{
  save_token, Desk, authenticate, enter_portal, renew, login, save_token, current_token,
}
use libtd.Authenticator.Caching.{LeavesFile, authenticate_twice, renew-current_token}
use libtd.Tests.Library.{Value, json, float, of_entries, of_items, text}
use libtd.Tests.Network.{boost, network, nowhere, welcome, TestWorld}

abbrev http : HttpLib boost
http = http_lib boost network

abbrev accounts : List (Bytes × List (String × Value))
accounts =
    (codes "A8", ("account", text (codes "A8")) ∷ [])
    ∷ (codes "A9", ("account", text (codes "A9")) ∷ [])
    ∷ []

account_in-first_named_example :
    account_in json (codes "A9") (
      of_entries (
        (
          "results",
          of_items (map {A = Bytes × List (String × Value)} (λ a. of_entries (a.1)) accounts),
        )
        ∷ []))
    ≡ or_throw (first_named json (codes "A9") accounts) runtime_error
account_in-first_named_example =
    account_in-first_named json (codes "A9") accounts (refl, (refl, tt))

abbrev desk : Desk TestWorld
desk = record {
  now = λ w. pos 5;
  token_file = λ w. w.file;
  write_token = λ t w. record w { file = some t };
  token_file-write = λ t w. refl;
}

no_file : load json (desk.token_file nowhere) ≡ ok no_token
unfolding load
no_file = refl

abbrev token : AuthToken
token = record { access_token = codes "A"; id_token = codes "I"; expiry_time = pos 10000000005 }

abbrev after_login : TestWorld
after_login = record { last = codes "/oauth/token"; file = none }

abbrev after_renewal : TestWorld
after_renewal = record { last = []; file = some (codes "t") }

logged : login boost http desk json (codes "u") (codes "p") nowhere ≡ (ok token, after_login)
unfolding login apart create JarFile.load granted get_request send ensure_connected open_stream
    set_host_name td_resolve prepare attempt exchange rethrow update_jar keep_jar request_of build
    ready left_jar apply on_stream on_world address update post_request is_success parse_body
    get_http_body equal same_name ◌>>=◌ ◌>>◌
logged = refl

printed : json.parse (json.pretty (token_json json token)) ≡ ok (token_json json token)
unfolding token_json to_seconds
printed = refl

token-fits : IsInt32 (to_seconds token.expiry_time)
unfolding to_seconds
token-fits = ground arith

kept :
    desk.token_file after_renewal
    ≡ desk.token_file ((renew boost http desk json (codes "u") (codes "p") nowhere).1)
unfolding renew save_token save ◌>>=◌ ◌>>◌
kept = rw logged refl

early : leb_ℤ (desk.now after_renewal) ((in_seconds token).expiry_time) ≡ true
unfolding to_seconds ◌*ℤ◌
early = refl

renew-current_token_example :
    current_token boost http desk json (codes "u") (codes "p") after_renewal
    ≡ (ok (in_seconds token), after_renewal)
renew-current_token_example =
    renew-current_token boost http desk json (codes "u") (codes "p") token nowhere after_login
      after_renewal logged token-fits printed kept early

-- A site that welcomes every request, in a world that is the file of the token alone.
abbrev site : HttpLib boost
site = record {
  Client = Headers;
  World = Option Bytes;
  create = λ url w. (ok [], w);
  get = λ target s. (ok welcome, s);
  post = λ target body headers s. (ok welcome, s);
  emplace = λ n v c. c ++ (n, v) ∷ [];
  cookie = λ c n. session n [];
  default_headers = λ c. c;
  headers-emplace = λ n v c. refl;
  headers-get = λ target s. refl;
  headers-post = λ target body headers s. refl;
}

abbrev drawer : Desk (Option Bytes)
drawer = record {
  now = λ w. pos 5;
  token_file = λ w. w;
  write_token = λ t w. some t;
  token_file-write = λ t w. refl;
}

site-LeavesFile : LeavesFile boost site drawer json
site-LeavesFile = record { file-create = λ url w. refl; file-get = λ target s. refl }

abbrev first_time : Option Bytes
first_time = (authenticate boost site drawer json (codes "u") (codes "p") (codes "A9") none).1

empty_drawer : load json none ≡ ok no_token
unfolding load
empty_drawer = refl

granted_token : login boost site drawer json (codes "u") (codes "p") none ≡ (ok token, none)
unfolding login apart granted is_success parse_body get_http_body equal ◌>>=◌ ◌>>◌
granted_token = refl

in_time : leb_ℤ (drawer.now first_time) ((in_seconds token).expiry_time) ≡ true
unfolding to_seconds ◌*ℤ◌
in_time = refl

authenticate_twice_example :
    (load json (drawer.token_file first_time) ≡ ok (in_seconds token))
    × (authenticate boost site drawer json (codes "u") (codes "p") (codes "A9") first_time
        ≡ enter_portal boost site drawer json (codes "A9") (in_seconds token) first_time)
authenticate_twice_example =
    authenticate_twice boost site drawer json (codes "u") (codes "p") (codes "A9") no_token token
      none none first_time site-LeavesFile empty_drawer refl granted_token token-fits printed refl
      in_time

abbrev a_line : Bytes × Candle ℤ
a_line = (
  codes "1,2,3,4,5,6",
  record {
    timestamp = pos 0;
    open_price = pos 2;
    high = pos 3;
    low = pos 4;
    close = pos 5;
    volume = pos 6;
  },
)

abbrev chart : Response Headers
chart = record { status = success; fields = []; body = codes "d" }

chart-text : get_http_body boost chart ≡ ok (codes "d")
unfolding get_http_body equal
chart-text = refl

a_line-read : IsLineOf json float a_line
unfolding parse_candle split_fields split string_to_timepoint from_chars parse_double
a_line-read = refl

read_candles_lem_example :
    read_candles json float boost 2 chart
    ≡ (if leb 2 1 then ok (take 2 (line_candles json float (a_line ∷ []))) else err undefined)
read_candles_lem_example =
    read_candles_lem json float boost 2 (a_line ∷ []) (codes "d") chart chart-text refl
      (a_line-read, tt)
