-- ===== src/HttpClient/Keeping.antt =====
-- What every call of the HTTP client keeps: the jar's names, the host, and the default headers.
use libtd.Base.{
  Bool-cases, inl, inr, Option, List, [], ◌∷◌, ◌≡◌, refl, map, Result, ok, err, Error,
  thrown_end_of_stream, runtime_error, invalid_argument, out_of_range, type_error, parse_error,
  system_error, bad_lexical_cast, undefined, thrown_code,
}
use libtd.Base.Int.{ℤ}
use libtd.Base.Stateful.{Stateful, Keeps, bind-Keeps, then-Keeps, give}
use libtd.Text.{codes, Bytes}
use libtd.CookieJar.Headers.{Cookie}
use libtd.CookieJar.Jar.{Header, apply, update, remove_expired, is_expired}
use libtd.CookieJar.Lookup.{HasUniqueNames, has-remove_expired, Holds, update-HasUniqueNames}
use libtd.HttpClient.Boost.{BoostLib, Network, Headers, Request, Response, Verb}
use libtd.HttpClient.Debug.{debug}
use libtd.HttpClient.Client.{
  left_jar, ready, td_resolve, set_host_name, attempt, ClientState, on_world, on_stream, to_header,
  open_stream, ensure_connected, prepare, keep_jar, update_jar, exchange, caught, rethrow, send,
}

remove_expired-HasUniqueNames :
    (now : ℤ) (jar : List Cookie) → HasUniqueNames jar → HasUniqueNames (remove_expired now jar)
unfolding HasUniqueNames remove_expired
remove_expired-HasUniqueNames now [] u = tt
remove_expired-HasUniqueNames now (c ∷ cs) u = elim (Bool-cases (is_expired now c)) [
  | inl gone ↦ rw gone (remove_expired-HasUniqueNames now cs u.1)
  | inr kept ↦
      rw kept (has-remove_expired now cs c.name u.0, remove_expired-HasUniqueNames now cs u.1)
]

-- `IsGood` is any property of the jar that the removal of cookies and an update keep.
module _ (B : BoostLib) (N : Network B) (host : Bytes) (default_headers : Headers)
    (IsGood : List Cookie → Type 0)
    (removed : (now : ℤ) (jar : List Cookie) → IsGood jar → IsGood (remove_expired now jar))
    (updated : (now : ℤ) (read_date : Bytes → Option ℤ) (hs : List Header) (jar : List Cookie)
      → IsGood jar
      → Holds IsGood (update now read_date hs jar)) where
  open N use {World, Socket}

  -- The client of a host, with its headers and a good jar.
  record Fits (s : ClientState B N) : Type 0 where
    pub host_same : s.0.host ≡ host
    pub headers_same : s.0.default_headers ≡ default_headers
    pub good : IsGood (s.0.jar)

  on_world-Keeps : {V : Type 0} (call : Stateful World V) → Keeps Fits (on_world B N call)
  unfolding on_world Keeps
  on_world-Keeps call s h = record {
    host_same = h.host_same;
    headers_same = h.headers_same;
    good = h.good;
  }

  debug-Keeps : (lines : List Bytes) → Keeps Fits (on_world B N (debug B N lines))
  debug-Keeps lines = on_world-Keeps (debug B N lines)

  on_stream-Keeps :
      {V : Type 0} (call : Stateful (Socket × World) V) → Keeps Fits (on_stream B N call)
  unfolding on_stream Keeps
  on_stream-Keeps call s h = record {
    host_same = h.host_same;
    headers_same = h.headers_same;
    good = h.good;
  }

  open_stream-Keeps : (name : Bytes) → Keeps Fits (open_stream B N name)
  unfolding open_stream
  open_stream-Keeps name = then-Keeps Fits _ _ (on_stream-Keeps (set_host_name B N name)) (
      bind-Keeps Fits _ _ (on_world-Keeps (td_resolve B N name (codes "443"))) (λ endpoints.
        then-Keeps Fits _ _ (on_stream-Keeps (N.connect endpoints)) (on_stream-Keeps N.handshake)))

  ensure_connected-Keeps : Keeps Fits (ensure_connected B N)
  unfolding ensure_connected Keeps
  ensure_connected-Keeps (c, w) h = elim (Bool-cases (N.is_open c.stream)) [
    | inl open_already ↦ rw open_already h
    | inr closed ↦ rw closed (open_stream-Keeps c.host (c, w) h)
  ]

  prepare-Keeps :
      (verb : Verb) (target : Bytes) (body : Option Bytes) (headers : Option Headers)
      → Keeps Fits (prepare B N verb target body headers)
  unfolding prepare ready left_jar apply Keeps
  prepare-Keeps verb target body headers (c, w) h = record {
    host_same = h.host_same;
    headers_same = h.headers_same;
    good = removed (N.now w) c.jar h.good;
  }

  keep_jar-Keeps : (jar : Result (List Cookie)) → Holds IsGood jar → Keeps Fits (keep_jar B N jar)
  unfolding keep_jar Holds Keeps
  keep_jar-Keeps (err thrown) u (c, w) h = h
  keep_jar-Keeps (ok jar) u (c, w) h = record {
    host_same = h.host_same;
    headers_same = h.headers_same;
    good = u;
  }

  update_jar-Keeps : (response : Response (B.Fields)) → Keeps Fits (update_jar B N response)
  unfolding update_jar Keeps
  update_jar-Keeps response (c, w) h =
      keep_jar-Keeps _
        (updated (N.now w) N.read_date (map to_header (B.each response.fields)) c.jar h.good) (c, w)
        h

  give-Keeps : {V : Type 0} (value : V) → Keeps Fits (give value)
  unfolding Keeps
  give-Keeps value s h = h

  exchange-Keeps : (req : Request (B.Fields)) → Keeps Fits (exchange B N req)
  unfolding exchange
  exchange-Keeps req = then-Keeps Fits _ _ (on_stream-Keeps (N.write req)) (
      bind-Keeps Fits _ _ (on_stream-Keeps N.read) (λ response.
        then-Keeps Fits _ _ (update_jar-Keeps response)
          (then-Keeps Fits _ _ (debug-Keeps _) (give-Keeps response))))

  caught-Keeps : (thrown : Error) (s : ClientState B N) → Fits s → Fits (caught B N thrown s)
  unfolding caught
  caught-Keeps runtime_error s h = h
  caught-Keeps invalid_argument s h = h
  caught-Keeps out_of_range s h = h
  caught-Keeps type_error s h = h
  caught-Keeps parse_error s h = h
  caught-Keeps system_error s h = h
  caught-Keeps bad_lexical_cast s h = h
  caught-Keeps undefined s h = h
  caught-Keeps thrown_end_of_stream s h = record {
    host_same = h.host_same;
    headers_same = h.headers_same;
    good = h.good;
  }
  caught-Keeps thrown_code s h = h

  rethrow-Keeps :
      (outcome : Result (Response (B.Fields)) × ClientState B N)
      → Fits (outcome.1)
      → Fits ((rethrow B N outcome).1)
  unfolding rethrow
  rethrow-Keeps (ok response, s) h = h
  rethrow-Keeps (err thrown, s) h = caught-Keeps thrown s h

  attempt-Keeps : (req : Request (B.Fields)) → Keeps Fits (attempt B N req)
  unfolding attempt Keeps
  attempt-Keeps req s h = rethrow-Keeps (exchange B N req s) (exchange-Keeps req s h)

  send-Keeps :
      (verb : Verb) (target : Bytes) (body : Option Bytes) (headers : Option Headers)
      → Keeps Fits (send B N verb target body headers)
  unfolding send
  send-Keeps verb target body headers = then-Keeps Fits _ _ ensure_connected-Keeps (
      bind-Keeps Fits _ _ (prepare-Keeps verb target body headers)
        (λ req. then-Keeps Fits _ _ (debug-Keeps _) (attempt-Keeps req)))

module _ (B : BoostLib) (N : Network B) where
  -- The client of a host, with its headers and a jar that holds no name twice.
  pub record IsClient (host : Bytes) (default_headers : Headers) (s : ClientState B N)
      : Type 0 where
    pub host_same : s.0.host ≡ host
    pub headers_same : s.0.default_headers ≡ default_headers
    pub unique : HasUniqueNames (s.0.jar)

  -- Whatever send gives or throws, the client keeps its host and its default headers, and a jar
  -- that holds no name twice still holds no name twice.
  pub send-IsClient :
      (host : Bytes) (default_headers : Headers) (verb : Verb) (target : Bytes)
      (body : Option Bytes) (headers : Option Headers) (s : ClientState B N)
      → IsClient host default_headers s
      → IsClient host default_headers ((send B N verb target body headers s).1)
  unfolding Keeps
  send-IsClient host default_headers verb target body headers s h =
      let kept =
        send-Keeps B N host default_headers HasUniqueNames remove_expired-HasUniqueNames
          update-HasUniqueNames verb target body headers s
          (record { host_same = h.host_same; headers_same = h.headers_same; good = h.unique }) in
      record { host_same = kept.host_same; headers_same = kept.headers_same; unique = kept.good }

  nothing_asked : (r : Result (List Cookie)) → Holds (λ jar. Unit {0}) r
  unfolding Holds
  nothing_asked (ok jar) = tt
  nothing_asked (err e) = tt

  any_jar :
      (now : ℤ) (read_date : Bytes → Option ℤ) (hs : List Header) (jar : List Cookie)
      → Unit {0}
      → Holds (λ jar'. Unit {0}) (update now read_date hs jar)
  any_jar now read_date hs jar u = nothing_asked (update now read_date hs jar)

  pub send-headers :
      (verb : Verb) (target : Bytes) (body : Option Bytes) (headers : Option Headers)
      (s : ClientState B N)
      → (send B N verb target body headers s).1.0.default_headers ≡ s.0.default_headers
  unfolding Keeps
  send-headers verb target body headers s =
      let kept =
        send-Keeps B N (s.0.host) (s.0.default_headers) (λ jar. Unit {0}) (λ now jar u. tt) any_jar
          verb target body headers s
          (record { host_same = refl; headers_same = refl; good = tt }) in
      kept.headers_same
