-- ===== src/HttpClient/Client.antt =====
-- src/http_client.cpp, with `td_resolve` and `get_http_body` of src/utils.cpp. The log is left out, and so
-- is the limit on the size of a body.
use libtd.Base.{
  Bool, if◌then◌else◌, Option, none, some, List, [], ◌∷◌, ◌++◌, map, Result, ok, err, Error,
  thrown_end_of_stream, runtime_error, system_error, guard,
}
use libtd.Base.Stateful.{reading, Stateful, ◌>>=◌, ◌>>◌, give, throwing, joined}
use libtd.Text.{Bytes, codes, equal}
use libtd.CookieJar.Headers.{Cookie}
use libtd.CookieJar.Jar.{Header, update, apply}
use libtd.CookieJar.File.{load}
use libtd.HttpClient.Boost.{
  BoostLib, Network, Headers, Request, Response, Verb, get_verb, post_verb, same_name,
}
use libtd.HttpClient.Debug.{debug, log_request_debug, log_response_debug}
use libtd.HttpClient.Requests.{create_default_headers, build}

pub record Client (Socket : Type 0) : Type 0 where
  pub stream : Socket
  pub host : Bytes
  pub jar : List Cookie
  pub default_headers : Headers

-- Whether a field is `Set-Cookie`, and its value.
unfoldable pub to_header : Bytes × Bytes → Header
unfolding same_name
to_header (name, value) = record {
  is_set_cookie = same_name name (codes "Set-Cookie");
  value = value;
}

module _ (B : BoostLib) where
  -- `port`, or a proxy without one: 8080.
  unfoldable pub port_or : Option Bytes → Bytes
  port_or none = codes "8080"
  port_or (some p) = p

  -- A proxy that is no URL is reported as a runtime error, whatever the parser throws.
  unfoldable pub proxy_address : Result (B.Url) → Result (Bytes × Bytes)
  unfolding port_or
  proxy_address (err thrown) = err runtime_error
  proxy_address (ok u) = ok (B.host u, port_or (B.port u))

  -- The host and the port that `td_resolve` looks up.
  unfoldable pub address : Option Bytes → Bytes → Bytes → Result (Bytes × Bytes)
  unfolding proxy_address
  address none host port = ok (host, port)
  address (some env) host port = proxy_address (B.parse_url env)

  unfoldable pub text_or_empty : Option Bytes → Bytes
  text_or_empty none = []
  text_or_empty (some s) = s

  unfoldable pub get_http_body : Response (B.Fields) → Result Bytes
  unfolding text_or_empty
  get_http_body res =
      if equal (text_or_empty (B.first res.fields (codes "Content-Encoding"))) (codes "gzip")
      then B.gunzip res.body
      else ok res.body

  module _ (N : Network B) where
    open N use {World, Socket}

    abbrev pub ClientState : Type 0
    ClientState = Client Socket × World

    unfoldable pub on_world : {Value : Type 0} → Stateful World Value → Stateful ClientState Value
    on_world call (c, w) = joined (λ w'. (c, w')) (call w)

    unfoldable pub on_stream :
        {Value : Type 0} → Stateful (Socket × World) Value → Stateful ClientState Value
    on_stream call (c, w) = joined (λ s. (record c { stream = s.0 }, s.1)) (call (c.stream, w))

    unfoldable pub td_resolve : Bytes → Bytes → Stateful World (N.Endpoints)
    unfolding address
    td_resolve host port = do
      proxy ← reading N.proxy
      a ← throwing (address proxy host port)
      N.resolve a.0 a.1

    abbrev named : Bool × (Socket × World) → Result (Unit {0}) × (Socket × World)
    named (set, s) = (guard set system_error, s)

    -- `SSL_set_tlsext_host_name`, with the exception that the code throws if it fails.
    unfoldable pub set_host_name : Bytes → Stateful (Socket × World) (Unit {0})
    set_host_name host s = named (N.set_host_name host s)

    unfoldable pub open_stream : Bytes → Stateful ClientState (Unit {0})
    unfolding td_resolve set_host_name on_stream on_world
    open_stream host = do
      on_stream (set_host_name host)
      endpoints ← on_world (td_resolve host (codes "443"))
      on_stream (N.connect endpoints)
      on_stream N.handshake

    unfoldable pub ensure_connected : Stateful ClientState (Unit {0})
    unfolding open_stream
    ensure_connected (c, w) =
        let opened = open_stream c.host (c, w) in
        if N.is_open c.stream then (ok tt, (c, w)) else opened

    unfoldable pub walk_given : Option Headers → Option Headers
    walk_given none = none
    walk_given (some headers) = some (N.walk_headers headers)

    -- The jar without the cookies that have expired, and the `Cookie` header.
    unfoldable pub left_jar : ClientState → List Cookie × Option Bytes
    unfolding apply
    left_jar (c, w) = apply N.walk_cookies (N.now w) c.jar

    unfoldable pub request_of :
        Verb → Bytes → Option Bytes → Option Headers → ClientState → Request (B.Fields)
    unfolding left_jar
    request_of verb target body headers s =
        build B (N.walk_headers (s.0.default_headers)) (walk_given headers) ((left_jar s).1) verb
          target body

    unfoldable pub ready : ClientState → ClientState
    unfolding left_jar
    ready s = (record (s.0) { jar = (left_jar s).0 }, s.1)

    unfoldable pub prepare :
        Verb → Bytes → Option Bytes → Option Headers → Stateful ClientState (Request (B.Fields))
    unfolding request_of ready
    prepare verb target body headers s = (ok (request_of verb target body headers s), ready s)

    unfoldable pub keep_jar : Result (List Cookie) → Stateful ClientState (Unit {0})
    keep_jar (err thrown) s = (err thrown, s)
    keep_jar (ok jar) (c, w) = (ok tt, (record c { jar = jar }, w))

    unfoldable pub update_jar : Response (B.Fields) → Stateful ClientState (Unit {0})
    unfolding keep_jar update to_header
    update_jar response (c, w) =
        keep_jar (update (N.now w) N.read_date (map to_header (B.each response.fields)) c.jar)
          (c, w)

    -- The `try` block.
    unfoldable pub exchange : Request (B.Fields) → Stateful ClientState (Response (B.Fields))
    unfolding update_jar on_stream on_world debug log_response_debug
    exchange req = do
      on_stream (N.write req)
      response ← on_stream N.read
      update_jar response
      on_world (debug B N (log_response_debug B N response))
      give response

    -- The `catch` block: it sees an `error_code` that is thrown as such, and nothing else. The stream is
    -- closed, and a new one takes its place.
    unfoldable pub caught : Error → ClientState → ClientState
    caught thrown_end_of_stream (c, w) = (record c { stream = N.new_socket }, w)
    caught _ s = s

    unfoldable pub rethrow :
        Result (Response (B.Fields)) × ClientState → Result (Response (B.Fields)) × ClientState
    unfolding caught
    rethrow (ok response, s) = (ok response, s)
    rethrow (err thrown, s) = (err thrown, caught thrown s)

    unfoldable pub attempt : Request (B.Fields) → Stateful ClientState (Response (B.Fields))
    unfolding exchange rethrow
    attempt req s = rethrow (exchange req s)

    unfoldable pub send :
        Verb → Bytes → Option Bytes → Option Headers → Stateful ClientState (Response (B.Fields))
    unfolding ensure_connected prepare attempt on_world debug log_request_debug
    send verb target body headers = do
      ensure_connected
      req ← prepare verb target body headers
      on_world (debug B N (log_request_debug B req))
      attempt req

    unfoldable pub get_request : Bytes → Option Headers → Stateful ClientState (Response (B.Fields))
    unfolding send
    get_request target headers = send get_verb target none headers

    unfoldable pub post_request :
        Bytes → Option Bytes → Option Headers → Stateful ClientState (Response (B.Fields))
    unfolding send
    post_request target body headers = send post_verb target body headers

    -- The constructor.
    unfoldable pub create : B.Url → Stateful World (Client Socket)
    unfolding load
    create url = do
      file ← reading (λ w. N.cookie_file w (B.host url ++ codes ".cookies"))
      jar ← throwing (load file)
      give (record {
        stream = N.new_socket;
        host = B.host url;
        jar = jar;
        default_headers = create_default_headers ++ (codes "Host", B.host url) ∷ [];
      })
