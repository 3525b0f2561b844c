-- ===== src/Ws/Streams.antt =====
-- The streams of Boost.Beast for web sockets, which are not part of the repository. An option that is set on
-- a stream changes the stream alone.
use libtd.Base.{ℕ, Bool}
use libtd.Base.Stateful.{Stateful}
use libtd.Text.{Bytes}
use libtd.HttpClient.Boost.{BoostLib, Network}
use libtd.WsClient.Connect.{Read}

pub record Streams (B : BoostLib) (N : Network B) : Type 1 where
  pub Stream : Type 0
  pub new_ssl : Stream
  pub new_plain : Stream
  pub encoded_host_and_port : B.Url → Bytes
  -- `expires_after`, in milliseconds, `expires_never`, the decorator that sets the user agent, and the
  -- suggested timeouts of a client
  pub expires_after : ℕ → Stream → Stream
  pub expires_never : Stream → Stream
  pub decorator : Bytes → Stream → Stream
  pub suggested_timeout : Stream → Stream
  pub set_host_name : Bytes → Stream × N.World → Bool × (Stream × N.World)
  pub connect : N.Endpoints → Stateful (Stream × N.World) (Unit {0})
  pub ssl_handshake : Stateful (Stream × N.World) (Unit {0})
  -- `handshake`, for a host and a target
  pub handshake : Bytes → Bytes → Stateful (Stream × N.World) (Unit {0})
  pub close : Stateful (Stream × N.World) (Unit {0})
  pub write : Bytes → Stateful (Stream × N.World) (Unit {0})
  -- The overload of `read` that gives an error code and does not throw.
  pub read : Stateful (Stream × N.World) Read
