-- ===== src/WsClient/Loop.antt =====
-- `read_and_process_message`. What the environment does is a script: at each turn of the
-- loop the two clocks are read, and the socket gives a message or an error.
use libtd.Base.{
  ℕ, ◌+◌, ◌*◌, Bool, true, false, String, Option, none, some, List, [], ◌∷◌, leb, if◌then◌else◌,
  Error, Result, ok, err, system_error,
}
use libtd.Base.Int.{ℤ}
use libtd.Text.{Bytes}
use libtd.Json.{JsonLib}
use libtd.Types.Tick.{Grouping}
use libtd.Types.Event.{Event, error_event, connection_closed_event, timeout_event}
use libtd.Parsing.Numbers.{FloatLib}
use libtd.WsClient.State.{Client, Action, Oracle, ◌>>=◌, pure, lift, with_client}
use libtd.WsClient.Connect.{
  ErrorCode, operation_aborted, closed, stream_truncated, timed_out, Read, failed, received,
}
use libtd.WsClient.PayloadTypes.{
  PayloadType, string_to_payload_type, connect_response, reconnect_response,
  authentication_response, unknown, subscribe_response, price_data, account_summary,
  account_details, trade_established,
}
use libtd.WsClient.Payloads.{
  process_price_data, process_subscribe_response, process_account_summary, process_account_details,
  process_trade_established,
}
use libtd.WsClient.Messages.{
  process_heartbeat, process_connect_response, process_reconnect_response,
  process_authentication_response,
}

-- `now` is the steady clock in nanoseconds, `wall` the system clock.
pub record Turn : Type 0 where
  pub now : ℕ
  pub wall : ℤ
  pub read : Read

-- How a call ends; `waiting` if the script ends first.
pub data Outcome (D : Type 0) : Type 0 where
  returned : Event D → Outcome D
  threw : Error → Outcome D
  waiting : Outcome D

unfoldable pub is_error_continuable : ErrorCode → Bool
is_error_continuable operation_aborted = true
is_error_continuable closed = true
is_error_continuable stream_truncated = true
is_error_continuable _ = false

-- The event for a read that failed.
unfoldable pub error_result : {D : Type 0} → ErrorCode → Event D
unfolding is_error_continuable
error_result operation_aborted = timeout_event
error_result timed_out = timeout_event
error_result ec =
    if is_error_continuable ec then connection_closed_event else error_event system_error

-- `start + timeout`, where the timeout counts milliseconds.
unfoldable pub deadline_of : ℕ → Option ℕ → Option ℕ
deadline_of start none = none
deadline_of start (some ms) = some (start + ms * 1000000)

unfoldable pub is_expired : Option ℕ → ℕ → Bool
is_expired none now = false
is_expired (some deadline) now = leb deadline now

module _ {D : Type 0} (J : JsonLib D) (F : FloatLib D) (write_fails : Oracle J.Json)
    (order : List (String × Grouping)) where
  open J use {Json, parse, subscript, get_string}

  unfoldable pub dispatch : PayloadType → Json → ℤ → Action Json (Option (Event D))
  dispatch connect_response msg wall =
      with_client (λ c. process_connect_response J write_fails msg c.login_id c.token)
  dispatch reconnect_response msg wall = process_reconnect_response J write_fails msg
  dispatch PayloadType.heartbeat msg wall = process_heartbeat J write_fails msg
  dispatch authentication_response msg wall = process_authentication_response J write_fails msg
  dispatch subscribe_response msg wall = lift (process_subscribe_response J F msg wall)
  dispatch price_data msg wall = do e ← lift (process_price_data J F order msg wall); pure (some e)
  dispatch account_summary msg wall = do e ← lift (process_account_summary J F msg); pure (some e)
  dispatch account_details msg wall = do e ← lift (process_account_details J F msg); pure (some e)
  dispatch trade_established msg wall = do
    e ← lift (process_trade_established J F msg)
    pure (some e)
  dispatch unknown msg wall = pure none

  -- One message: parsed, told by its type, and handled.
  unfoldable pub handle : Bytes → ℤ → Action Json (Option (Event D))
  handle buf wall = do
    msg ← lift (parse buf)
    t ← lift (subscript msg "t")
    name ← lift (get_string t)
    dispatch (string_to_payload_type name) msg wall

  -- What a turn makes of the result of a handler: an event ends the loop, and so does an exception.
  unfoldable pub after :
      (Client Json → Outcome D × Client Json)
      → Result (Option (Event D)) × Client Json
      → Outcome D × Client Json
  after loop (ok none, c) = loop c
  after loop (ok (some e), c) = (returned e, c)
  after loop (err e, c) = (threw e, c)

  -- The read of a turn, once the deadline has been checked.
  unfoldable pub turn :
      (Client Json → Outcome D × Client Json) → Read → ℤ → Client Json → Outcome D × Client Json
  unfolding after
  turn loop (failed ec) wall c = (returned (error_result ec), c)
  turn loop (received buf) wall c = after loop (handle buf wall c)

  unfoldable pub read_loop : Option ℕ → List Turn → Client Json → Outcome D × Client Json
  unfolding turn
  read_loop deadline [] c = (waiting, c)
  read_loop deadline (t ∷ ts) c =
      let rest = turn (read_loop deadline ts) t.read t.wall c in
      if is_expired deadline t.now then (returned timeout_event, c) else rest

  -- `start` is the first reading of the clock.
  unfoldable pub read_and_process_message :
      Option ℕ → ℕ → List Turn → Client Json → Outcome D × Client Json
  unfolding read_loop deadline_of
  read_and_process_message limit start script c = read_loop (deadline_of start limit) script c
