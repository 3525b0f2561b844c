-- ===== src/WsClient/Sync/Loop.antt =====
-- The loop over the messages keeps every property that neutral requests, a new connection identifier
-- and the resubscription keep.
use libtd.Base.{inl, inr, Bool-cases, ℕ, Option, none, some, String, List, [], ◌∷◌, Result, ok, err}
use libtd.Base.Int.{ℤ}
use libtd.Text.{Bytes}
use libtd.Json.{JsonLib}
use libtd.Types.Tick.{Grouping}
use libtd.Types.Event.{Event}
use libtd.Parsing.Numbers.{FloatLib}
use libtd.WsClient.State.{Request, Client, Oracle, send, store_connection_id, with_client}
use libtd.WsClient.Keeps.{Keeps, Keeps-pure, Keeps-bind, keeps_rules}
use libtd.WsClient.PayloadTypes.{
  PayloadType, connect_response, reconnect_response, authentication_response,
}
use libtd.WsClient.Messages.{process_connect_response, process_authentication_response, resubscribe}
use libtd.WsClient.Connect.{Read, failed, received}
use libtd.WsClient.Loop.{
  Turn, Outcome, dispatch, handle, turn, after, is_expired, deadline_of, read_loop,
  read_and_process_message,
}
use libtd.WsClient.Sync.Neutral.{
  IsNeutral, process_heartbeat-Keeps, process_connect_response-Keeps,
  process_reconnect_response-Keeps, before_resubscribe-Keeps,
}

module _ {D : Type 0} (J : JsonLib D) (F : FloatLib D) (write_fails : Oracle J.Json)
    (order : List (String × Grouping)) (P : Client J.Json → Type 0)
    (keeps_send : (r : Request J.Json) → IsNeutral r → Keeps P (send write_fails r))
    (keeps_id : (id : Bytes) → Keeps P (store_connection_id id))
    (keeps_resubscribe : Keeps P (with_client (λ c. resubscribe J write_fails c.subscribed))) where
  open J use {Json}

  connect_response-Keeps :
      (msg : Json) (l t : Bytes) → Keeps P (process_connect_response J write_fails msg l t)
  connect_response-Keeps = process_connect_response-Keeps J write_fails P keeps_send keeps_id

  pub authentication_response-Keeps :
      (msg : Json) → Keeps P (process_authentication_response J write_fails msg)
  unfolding process_authentication_response
  authentication_response-Keeps msg =
      Keeps-bind _ _ (before_resubscribe-Keeps J write_fails P keeps_send keeps_id msg)
        λ u. Keeps-bind _ _ keeps_resubscribe λ v. Keeps-pure none

  dispatch-Keeps :
      (p : PayloadType) (msg : Json) (wall : ℤ)
      → Keeps P (dispatch J F write_fails order p msg wall)
  unfolding dispatch
  dispatch-Keeps connect_response msg wall = search (keeps_rules, connect_response-Keeps)
  dispatch-Keeps reconnect_response msg wall =
      process_reconnect_response-Keeps J write_fails P keeps_send keeps_id msg
  dispatch-Keeps PayloadType.heartbeat msg wall =
      process_heartbeat-Keeps J write_fails P keeps_send keeps_id msg
  dispatch-Keeps authentication_response msg wall = authentication_response-Keeps msg
  dispatch-Keeps _ msg wall = search keeps_rules

  handle-Keeps : (buf : Bytes) (wall : ℤ) → Keeps P (handle J F write_fails order buf wall)
  unfolding handle
  handle-Keeps buf wall = search (keeps_rules, dispatch-Keeps)

  after-Keeps :
      (loop : Client Json → Outcome D × Client Json)
      → ((c : Client Json) → P c → P (loop c).1)
      → (r : Result (Option (Event D)) × Client Json) → P r.1
      → P (after J F write_fails order loop r).1
  unfolding after
  after-Keeps loop h (ok none, c) s = h c s
  after-Keeps loop h (ok (some e), c) s = s
  after-Keeps loop h (err e, c) s = s

  turn-Keeps :
      (loop : Client Json → Outcome D × Client Json)
      → ((c : Client Json) → P c → P (loop c).1)
      → (r : Read) (wall : ℤ) (c : Client Json) → P c
      → P (turn J F write_fails order loop r wall c).1
  unfolding turn
  turn-Keeps loop h (failed ec) wall c s = s
  turn-Keeps loop h (received buf) wall c s =
      after-Keeps loop h (handle J F write_fails order buf wall c) ((handle-Keeps buf wall).at c s)

  read_loop-Keeps :
      (deadline : Option ℕ) (ts : List Turn) (c : Client Json)
      → P c
      → P (read_loop J F write_fails order deadline ts c).1
  unfolding read_loop
  read_loop-Keeps deadline [] c s = s
  read_loop-Keeps deadline (t ∷ ts) c s = elim (Bool-cases (is_expired deadline t.now)) [
    | inl late ↦ rw (late, read_loop) s
    | inr early ↦
        rw (early, read_loop)
          (turn-Keeps (read_loop J F write_fails order deadline ts) (read_loop-Keeps deadline ts)
            t.read t.wall c s)
  ]

  pub read_and_process_message-Keeps :
      (limit : Option ℕ) (start : ℕ) (script : List Turn) (c : Client Json)
      → P c
      → P (read_and_process_message J F write_fails order limit start script c).1
  unfolding read_and_process_message
  read_and_process_message-Keeps limit start script c s =
      read_loop-Keeps (deadline_of start limit) script c s
