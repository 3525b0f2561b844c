-- ===== src/Ws/Socket.antt =====
-- The class `ws`. A null pointer that is followed is `undefined`.
use libtd.Base.{
  ℕ, Bool, true, false, ◌||◌, Option, none, some, [], ◌∷◌, ◌++◌, Result, err, guard, system_error,
  undefined,
}
use libtd.Base.Stateful.{Stateful, ◌>>=◌, ◌>>◌, modify, joined, give}
use libtd.Text.{Bytes, codes, equal}
use libtd.HttpClient.Boost.{BoostLib, Network}
use libtd.HttpClient.Requests.{user_agent}
use libtd.HttpClient.Debug.{debug}
use libtd.HttpClient.Client.{td_resolve}
use libtd.WsClient.Connect.{Read, failed, received}
use libtd.Ws.Streams.{Streams}

pub record Ws (Stream : Type 0) : Type 0 where
  pub ssl_ws : Option Stream
  pub plain_ws : Option Stream
  pub using_ssl : Bool

-- `ws()`
abbrev pub unconnected : {Stream : Type 0} → Ws Stream
unconnected = record { ssl_ws = none; plain_ws = none; using_ssl = false }

unfoldable pub is_secure : Bytes → Bool
unfolding equal
is_secure scheme = equal scheme (codes "wss") || equal scheme (codes "https")

unfoldable pub port_of : Bool → Bytes
port_of true = codes "443"
port_of false = codes "80"

-- The pointer that a call follows.
unfoldable pub pointer : {Stream : Type 0} → Bool → Ws Stream → Option Stream
pointer true s = s.ssl_ws
pointer false s = s.plain_ws

unfoldable pub set_pointer : {Stream : Type 0} → Bool → Stream → Ws Stream → Ws Stream
set_pointer true stream s = record s { ssl_ws = some stream }
set_pointer false stream s = record s { plain_ws = some stream }

module _ (B : BoostLib) (N : Network B) (S : Streams B N) where
  open S use {Stream}

  abbrev pub WsState : Type 0
  WsState = Ws Stream × N.World

  unfoldable pub follow :
      {Value : Type 0}
      → Bool
      → Stateful (Stream × N.World) Value
      → Option Stream
      → Stateful WsState Value
  unfolding set_pointer
  follow ssl call none s = (err undefined, s)
  follow ssl call (some stream) (s, w) =
      joined (λ t. (set_pointer ssl (t.0) s, t.1)) (call (stream, w))

  -- A call of the stream that is in use.
  unfoldable pub on_stream :
      {Value : Type 0} → Stateful (Stream × N.World) Value → Stateful WsState Value
  unfolding pointer follow
  on_stream call s = follow (s.0.using_ssl) call (pointer (s.0.using_ssl) (s.0)) s

  unfoldable pub on_world : {Value : Type 0} → Stateful (N.World) Value → Stateful WsState Value
  on_world call (s, w) = joined (λ w'. (s, w')) (call w)

  abbrev pub option : (Stream → Stream) → Stateful (Stream × N.World) (Unit {0})
  option set = modify (λ t. (set (t.0), t.1))

  abbrev named : Bool × (Stream × N.World) → Result (Unit {0}) × (Stream × N.World)
  named (set, t) = (guard set system_error, t)

  unfoldable pub set_host_name : Bytes → Stateful (Stream × N.World) (Unit {0})
  set_host_name host t = named (S.set_host_name host t)

  unfoldable pub choose : Bool → WsState → WsState
  choose ssl (s, w) = (record s { using_ssl = ssl }, w)

  unfoldable pub own : Bool → WsState → WsState
  unfolding set_pointer
  own true (s, w) = (set_pointer true S.new_ssl s, w)
  own false (s, w) = (set_pointer false S.new_plain s, w)

  -- What follows once the stream is there.
  unfoldable pub open_stream : Bool → B.Url → N.Endpoints → Stateful WsState (Unit {0})
  unfolding set_host_name
  open_stream true url endpoints = do
    on_stream (option (S.expires_after 30000))
    on_stream (S.connect endpoints)
    on_stream (set_host_name (B.host url))
    on_stream (option (S.expires_after 30000))
    on_stream (option (S.decorator user_agent))
    on_stream S.ssl_handshake
    on_stream (option S.expires_never)
    on_stream (option S.suggested_timeout)
    on_stream (S.handshake (S.encoded_host_and_port url) (codes "/"))
  open_stream false url endpoints = do
    on_stream (option (S.expires_after 30000))
    on_stream (S.connect endpoints)
    on_stream (option (S.decorator user_agent))
    on_stream (option S.expires_never)
    on_stream (option S.suggested_timeout)
    on_stream (S.handshake (S.encoded_host_and_port url) (codes "/"))

  -- `connect`, for a scheme that is secure or is not.
  unfoldable pub connect_as : Bool → B.Url → Stateful WsState (Unit {0})
  unfolding choose own port_of
  connect_as ssl url = do
    modify (choose ssl)
    endpoints ← on_world (td_resolve B N (B.host url) (port_of ssl))
    modify (own ssl)
    open_stream ssl url endpoints

  unfoldable pub connect : B.Url → Stateful WsState (Unit {0})
  unfolding connect_as is_secure
  connect url = connect_as (is_secure (B.scheme url)) url

  unfoldable pub close : Stateful WsState (Unit {0})
  close = do on_stream (option (S.expires_after 1000)); on_stream S.close

  unfoldable pub send : Bytes → Stateful WsState (Unit {0})
  unfolding debug
  send message = do
    on_stream (S.write message)
    on_world (debug B N ((codes ">> " ++ message) ∷ []))

  unfoldable pub set_timeout : Option ℕ → Stateful WsState (Unit {0})
  set_timeout none = give tt
  set_timeout (some timeout) = on_stream (option (S.expires_after timeout))

  unfoldable pub show_read : Read → Stateful WsState (Unit {0})
  unfolding debug
  show_read (failed code) = give tt
  show_read (received buf) = on_world (debug B N ((codes "<< " ++ buf) ∷ []))

  -- The error code and the message in one, as ws_client tells them apart.
  unfoldable pub read_message : Option ℕ → Stateful WsState Read
  unfolding show_read
  read_message timeout = do set_timeout timeout; read ← on_stream S.read; show_read read; give read
