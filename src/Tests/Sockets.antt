-- ===== src/Tests/Sockets.antt =====
-- A web socket on the network of the tests.
use libtd.Base.{Bool, true, false, some, List, [], ◌∷◌, ok}
use libtd.Text.{codes}
use libtd.WsClient.Connect.{received}
use libtd.Ws.Streams.{Streams}
use libtd.Ws.Socket.{WsState, unconnected, connect, set_host_name}
use libtd.Ws.Pointers.{Call, sends, reads, closes}
use libtd.Tests.Network.{boost, network, nowhere}

-- A stream is whether it is connected.
abbrev streams : Streams boost network
streams = record {
  Stream = Bool;
  new_ssl = false;
  new_plain = false;
  encoded_host_and_port = λ u. u;
  expires_after = λ ms t. t;
  expires_never = λ t. t;
  decorator = λ agent t. t;
  suggested_timeout = λ t. t;
  set_host_name = λ host t. (true, t);
  connect = λ endpoints t. (ok tt, (true, t.1));
  ssl_handshake = λ t. (ok tt, t);
  handshake = λ host target t. (ok tt, t);
  close = λ t. (ok tt, (false, t.1));
  write = λ message t. (ok tt, t);
  read = λ t. (ok (received (codes "h")), t);
}

abbrev fresh : WsState boost network streams
fresh = (unconnected, nowhere)

abbrev some_calls : List Call
some_calls = sends (codes "x") ∷ reads (some 100) ∷ closes ∷ []
