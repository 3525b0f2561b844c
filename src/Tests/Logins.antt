-- ===== src/Tests/Logins.antt =====
-- Logins through redirects on concrete answers.
use libtd.Base.{
  Bool, true, false, ℕ, suc, [], ◌∷◌, ◌++◌, none, ◌≡◌, refl, ok, err, arith, runtime_error,
}
use libtd.Text.{Bytes, codes, equal}
use libtd.Text.Search.{find}
use libtd.RestApi.Urls.{
  replace_spaces, encode, find_from, replace, round, replace_loop, replace_spaces-encode,
}
use libtd.RestApi.Pages.{
  extract_value, extract_login_id, extract_account_id, read_page, extract_ots,
}
use libtd.Base.Stateful.{◌>>=◌, ◌>>◌}
use libtd.CookieJar.Headers.{session, read_header}
use libtd.CookieJar.Jar.{update, apply}
use libtd.CookieJar.File.{load}
use libtd.HttpClient.Boost.{same_name}
use libtd.HttpClient.Requests.{create_default_headers, build}
use libtd.HttpClient.Client.{
  Client, create, get_request, send, ensure_connected, open_stream, set_host_name, td_resolve,
  prepare, attempt, exchange, rethrow, update_jar, keep_jar, request_of, ready, left_jar, on_stream,
  on_world, address, to_header, get_http_body,
}
use libtd.HttpClient.Interface.{HttpLib}
use libtd.HttpClient.Service.{http_lib}
use libtd.RestApi.Client.{RestApi, with_client, details_url, open_client}
use libtd.RestApi.Redirection.{Redirects, arrived, moved, open_client_too_deep}
use libtd.RestApi.Calls.{connect, page_headers}
use libtd.RestApi.Connecting.{logged_in, connect-Redirects}
use libtd.Tests.Network.{boost, network, nowhere, landed, to_b, to_c, TestWorld}

replace_spaces-encode_example : replace_spaces (codes "a b  c") ≡ encode (codes "a b  c")
replace_spaces-encode_example = replace_spaces-encode (codes "a b  c")

a-plain : replace_spaces (codes "a") ≡ codes "a"
unfolding replace_spaces replace_loop round find_from replace find
a-plain = refl

b-plain : replace_spaces (codes "b") ≡ codes "b"
unfolding replace_spaces replace_loop round find_from replace find
b-plain = refl

c-plain : replace_spaces (codes "c") ≡ codes "c"
unfolding replace_spaces replace_loop round find_from replace find
c-plain = refl

abbrev pub http : HttpLib boost
http = http_lib boost network

abbrev pub nobody : RestApi (Client Bool)
nobody = record { client = none; account_id = []; get_market_details_url = [] }

abbrev last_was : Bytes → TestWorld
last_was t = record { last = t; file = none }

abbrev new_client : Bytes → Client Bool
new_client host = record {
  stream = false;
  host = host;
  jar = [];
  default_headers = create_default_headers ++ (codes "Host", host) ∷ [];
}

abbrev connected : Bytes → Client Bool
connected host = record (new_client host) { stream = true }

abbrev pub with_cookie : Client Bool
with_cookie = record (connected (codes "a")) { jar = session (codes "o") (codes "T1") ∷ [] }

created : HttpLib.create http (codes "a") nowhere ≡ (ok (new_client (codes "a")), nowhere)
unfolding create load ◌>>=◌
created = refl

got_a :
    HttpLib.get http (codes "a") (new_client (codes "a"), nowhere)
    ≡ (ok to_b, (connected (codes "a"), last_was (codes "a")))
unfolding get_request send ensure_connected open_stream set_host_name td_resolve prepare attempt
    exchange rethrow update_jar keep_jar request_of build ready left_jar apply on_stream on_world
    address update to_header same_name ◌>>=◌ ◌>>◌
got_a = refl

got_b :
    HttpLib.get http (codes "b") (connected (codes "a"), last_was (codes "a"))
    ≡ (ok landed, (with_cookie, last_was (codes "b")))
unfolding get_request send ensure_connected open_stream set_host_name td_resolve prepare attempt
    exchange rethrow update_jar keep_jar request_of build ready left_jar apply on_stream on_world
    address update to_header same_name read_header ◌>>=◌ ◌>>◌
got_b = refl

page-read : read_page boost (codes "b") landed ≡ ok (codes "o", codes "L7", codes "A9")
unfolding read_page extract_ots extract_login_id extract_account_id extract_value find get_http_body
    equal same_name
page-read = refl

pub connected_a : connect boost http (codes "a") (nobody, nowhere) ≡ (
  ok (record {
    token = (HttpLib.cookie http with_cookie (codes "o")).value;
    login_id = codes "L7";
  }),
  with_client boost http
      (record nobody {
        account_id = codes "A9";
        get_market_details_url = details_url boost http (codes "A9");
      })
      (logged_in boost http (codes "a") (codes "o") (with_cookie, last_was (codes "b"))),
)
unfolding same_name
connected_a =
    (connect-Redirects boost http (codes "a") nobody nowhere nowhere (new_client (codes "a"))
      (codes "o") (codes "L7") (codes "A9") (codes "b") landed created (omega arith)
      (moved (rw a-plain refl) got_a refl refl arrived) (rw b-plain refl) got_b refl page-read).0

connect-Redirects_example :
    (connect boost http (codes "a") (nobody, nowhere) ≡ (
      ok (record {
        token = (HttpLib.cookie http with_cookie (codes "o")).value;
        login_id = codes "L7";
      }),
      with_client boost http
          (record nobody {
            account_id = codes "A9";
            get_market_details_url = details_url boost http (codes "A9");
          })
          (logged_in boost http (codes "a") (codes "o") (with_cookie, last_was (codes "b"))),
    ))
    × (HttpLib.default_headers http
          ((logged_in boost http (codes "a") (codes "o") (with_cookie, last_was (codes "b"))).0)
        ≡ (new_client (codes "a")).default_headers
          ++ page_headers boost http (codes "a") (codes "o"))
unfolding same_name
connect-Redirects_example =
    connect-Redirects boost http (codes "a") nobody nowhere nowhere (new_client (codes "a"))
      (codes "o") (codes "L7") (codes "A9") (codes "b") landed created (omega arith)
      (moved (rw a-plain refl) got_a refl refl arrived) (rw b-plain refl) got_b refl page-read

got_c :
    HttpLib.get http (codes "c") (connected (codes "c"), last_was (codes "c"))
    ≡ (ok to_c, (connected (codes "c"), last_was (codes "c")))
unfolding get_request send ensure_connected open_stream set_host_name td_resolve prepare attempt
    exchange rethrow update_jar keep_jar request_of build ready left_jar apply on_stream on_world
    address update to_header same_name ◌>>=◌ ◌>>◌
got_c = refl

abbrev circling : Client Bool × TestWorld
circling = (connected (codes "c"), last_was (codes "c"))

again :
    {n : ℕ}
    → Redirects boost http n (codes "c") circling (codes "c") circling
    → Redirects boost http (suc n) (codes "c") circling (codes "c") circling
unfolding same_name
again rs = moved (rw c-plain refl) got_c refl refl rs

open_client_too_deep_example :
    open_client boost http (codes "c") (with_client boost http nobody circling)
    ≡ (err runtime_error, with_client boost http nobody circling)
open_client_too_deep_example =
    open_client_too_deep boost http nobody (again (again (again (again (again arrived)))))
