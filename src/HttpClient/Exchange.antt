-- ===== src/HttpClient/Exchange.antt =====
-- What `send` does on an open stream, where the exchange succeeds and where it fails.
use mathlib.Core.Option
use libtd.Base.{
  none, some, ◌++◌, system_error, false, true, Option, List, ◌≡◌, refl, ap, ◌∙◌, map, ok, err,
}
use libtd.Base.Stateful.{◌>>=◌, ◌>>◌}
use libtd.Text.{Bytes, codes}
use libtd.CookieJar.Headers.{Cookie}
use libtd.CookieJar.Jar.{update}
use libtd.CookieJar.RequestHeader.{live_cookies, cookie_header, apply_lem}
use libtd.HttpClient.Requests.{
  values_of, given_values, at_most_one, or_empty, build-line, build-other, build-cookie,
}
use libtd.HttpClient.Boost.{BoostLib, Network, Headers, Request, Response, Verb, same_name}
use libtd.HttpClient.Debug.{is_debug_enabled, log_request_debug, log_response_debug, debug_off}
use libtd.HttpClient.Client.{
  ClientState, on_world, on_stream, to_header, ensure_connected, prepare, update_jar, exchange,
  caught, rethrow, attempt, send, left_jar, walk_given, request_of, ready,
}

module _ (B : BoostLib) (N : Network B) where
  open N use {World, Socket}

  pub ensure_connected_open :
      (s : ClientState B N) → N.is_open (s.0.stream) ≡ true → ensure_connected B N s ≡ (ok tt, s)
  unfolding ensure_connected
  ensure_connected_open (c, w) h = rw h refl

  pub send_open :
      (verb : Verb) (target : Bytes) (body : Option Bytes) (headers : Option Headers)
      (s : ClientState B N)
      → N.is_open (s.0.stream) ≡ true
      → is_debug_enabled B N ≡ ok false
      → send B N verb target body headers s
        ≡ rethrow B N (exchange B N (request_of B N verb target body headers s) (ready B N s))
  unfolding send on_world ◌>>=◌ ◌>>◌ prepare attempt request_of ready left_jar
  send_open verb target body headers (c, w) h d =
      rw
        (
          ensure_connected_open (c, w) h,
          debug_off B N (log_request_debug B (request_of B N verb target body headers (c, w))) w d,
        )
        refl

  -- The `Cookie` header for the cookies that are still to be sent.
  abbrev pub cookies_sent : ClientState B N → Option Bytes
  cookies_sent s = cookie_header (N.walk_cookies (live_cookies (N.now (s.1)) (s.0.jar)))

  -- The request that is asked for: its line and its body, the headers under a name `m`, the default
  -- ones before those given, and the cookies.
  pub record Asks (verb : Verb) (target : Bytes) (body : Option Bytes) (headers : Option Headers)
      (s : ClientState B N) (m : Bytes) (req : Request (B.Fields)) : Type 0 where
    pub verb_same : req.verb ≡ verb
    pub target_same : req.target ≡ target
    pub body_same : req.body ≡ or_empty body
    pub headers_under :
        B.values req.fields m
        ≡ values_of (N.walk_headers (s.0.default_headers)) m
          ++ given_values (Option.map N.walk_headers headers) m
    pub cookies_under : B.values req.fields (codes "Cookie") ≡ at_most_one (cookies_sent s)

  given_values-walk :
      (headers : Option Headers) (m : Bytes)
      → given_values (walk_given B N headers) m ≡ given_values (Option.map N.walk_headers headers) m
  unfolding walk_given
  given_values-walk none m = refl
  given_values-walk (some hs) m = refl

  left_jar-live :
      (s : ClientState B N)
      → left_jar B N s ≡ (live_cookies (N.now (s.1)) (s.0.jar), cookies_sent s)
  unfolding left_jar
  left_jar-live (c, w) = apply_lem N.walk_cookies (N.now w) c.jar

  request_of-Asks :
      (verb : Verb) (target : Bytes) (body : Option Bytes) (headers : Option Headers)
      (s : ClientState B N) (m : Bytes)
      → same_name (codes "Cookie") m ≡ false
      → same_name (codes "Content-Length") m ≡ false
      → same_name (codes "Transfer-Encoding") m ≡ false
      → Asks verb target body headers s m (request_of B N verb target body headers s)
  unfolding request_of
  request_of-Asks verb target body headers s m p q r =
      let hs = N.walk_headers (s.0.default_headers) in
      let given = walk_given B N headers in
      let cookie_str = (left_jar B N s).1 in
      let line = build-line B hs given cookie_str verb target body in
      record {
        verb_same = line.0;
        target_same = line.1;
        body_same = line.2;
        headers_under =
            build-other B hs given cookie_str verb target body m p q r
            ∙ ap (λ vs. values_of hs m ++ vs) (given_values-walk headers m);
        cookies_under =
            build-cookie B hs given cookie_str verb target body
            ∙ ap (λ l. at_most_one (l.1)) (left_jar-live s);
      }

  -- The request that send writes on an open stream has the method, the target and the body that
  -- it is given; under any name but Cookie, Content-Length and Transfer-Encoding it has the
  -- default headers and then the given ones, and under Cookie the cookies of the jar that have no
  -- time of expiry or one still to come; when the write and the read succeed and the cookies of
  -- the response can be stored, send gives the response and leaves the jar that update makes of
  -- those cookies.
  pub send-response :
      (verb : Verb) (target : Bytes) (body : Option Bytes) (headers : Option Headers)
      (s : ClientState B N) (m : Bytes) (s1 s2 : Socket × World) (response : Response (B.Fields))
      (jar : List Cookie)
      → same_name (codes "Cookie") m ≡ false
      → same_name (codes "Content-Length") m ≡ false
      → same_name (codes "Transfer-Encoding") m ≡ false
      → N.is_open (s.0.stream) ≡ true
      → is_debug_enabled B N ≡ ok false
      → N.write (request_of B N verb target body headers s) (s.0.stream, s.1) ≡ (ok tt, s1)
      → N.read s1 ≡ (ok response, s2)
      → update
          (N.now (s2.1))
          N.read_date
          (map to_header (B.each response.fields))
          (live_cookies (N.now (s.1)) (s.0.jar))
        ≡ ok jar
      → Asks verb target body headers s m (request_of B N verb target body headers s)
        × (send B N verb target body headers s
            ≡ (ok response, (record (s.0) { stream = s2.0; jar = jar }, s2.1)))
  unfolding exchange on_world ◌>>=◌ ◌>>◌ on_stream update_jar ready rethrow
  send-response verb target body headers s m s1 s2 response jar a b c h d p q r = (
    request_of-Asks verb target body headers s m a b c,
    send_open verb target body headers s h d
        ∙ rw
            (
              p,
              q,
              ap (λ l. l.0) (left_jar-live s),
              r,
              debug_off B N (log_response_debug B N response) (s2.1) d,
            )
            refl,
  )

  -- When the exchange on an open stream throws a system error and the stream still counts as
  -- open, send throws it and leaves the stream as it is, and the next call makes no new
  -- connection.
  pub send-system_error :
      (verb : Verb) (target : Bytes) (body : Option Bytes) (headers : Option Headers)
      (s s' : ClientState B N)
      → N.is_open (s.0.stream) ≡ true
      → is_debug_enabled B N ≡ ok false
      → exchange B N (request_of B N verb target body headers s) (ready B N s)
        ≡ (err system_error, s')
      → N.is_open (s'.0.stream) ≡ true
      → (send B N verb target body headers s ≡ (err system_error, s'))
        × (ensure_connected B N s' ≡ (ok tt, s'))
  unfolding rethrow caught
  send-system_error verb target body headers s s' h d p still = (
    send_open verb target body headers s h d ∙ ap (rethrow B N) p,
    ensure_connected_open s' still,
  )
