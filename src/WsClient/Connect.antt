-- ===== src/WsClient/Connect.antt =====
-- `connect`, and what a read of the socket gives.
use libtd.Base.{true, [], Result, err, runtime_error}
use libtd.Text.{Bytes}
use libtd.Json.{JsonLib}
use libtd.WsClient.State.{Action, Oracle, ◌>>=◌, ◌>>◌, pure, lift}
use libtd.WsClient.Messages.{process_connect_response, process_authentication_response}

-- The error codes that the code tells apart; `timed_out` is `beast::error::timeout`.
pub data ErrorCode : Type 0 where
  operation_aborted closed stream_truncated timed_out other : ErrorCode

pub data Read : Type 0 where
  failed : ErrorCode → Read
  received : Bytes → Read

module _ {D : Type 0} (J : JsonLib D) (write_fails : Oracle J.Json) where
  open J use {Json, parse}

  -- A read without a timeout, whose failure is an exception.
  unfoldable pub read_or_throw : Read → Action Json Json
  read_or_throw (failed ec) = lift (err runtime_error)
  read_or_throw (received buf) = lift (parse buf)

  -- What follows once `ws_` points to a new socket. `opened` says whether the socket could be opened;
  -- the two reads are what it gives first.
  unfoldable pub handshake : Bytes → Bytes → Result (Unit {0}) → Read → Read → Action Json Unit
  handshake login_id token opened first second = do
    lift opened
    msg ← read_or_throw first
    process_connect_response J write_fails msg login_id token
    reply ← read_or_throw second
    process_authentication_response J write_fails reply
    pure tt

  unfoldable pub connect :
      Bytes → Bytes → Bytes → Result (Unit {0}) → Read → Read → Action Json Unit
  connect url login_id token opened first second c =
      handshake login_id token opened first second (record c {
        connected = true;
        sent = [];
        login_id = login_id;
        token = token;
        stored_url = url;
      })
