-- ===== src/WsClient/Messages.antt =====
-- The handlers of the messages that change the client or answer the server.
use libtd.Base.{String, Option, none, List, [], ◌∷◌, guard, runtime_error}
use libtd.Base.Int.{ℤ}
use libtd.Text.{Bytes}
use libtd.Json.{JsonLib}
use libtd.Types.Event.{Event}
use libtd.WsClient.State
use libtd.WsClient.State.{
  subscribe, authentication, reconnect, options, Action, Oracle, ◌>>=◌, ◌>>◌, pure, lift,
  with_client, send, store_connection_id,
}

module _ {D : Type 0} (J : JsonLib D) (write_fails : Oracle J.Json) where
  open J use {Json, index, get_bool, get_string}

  -- `msg[k1][k2]` of a constant.
  unfoldable pub index2 : Json → String → String → Action Json Json
  index2 msg k1 k2 = do d ← lift (index msg k1); lift (index d k2)

  unfoldable pub process_heartbeat : Json → Action Json (Option (Event D))
  process_heartbeat j = do
    sent_by_server ← index2 j "d" "SentByServer"
    messages_received ← index2 j "d" "MessagesReceived"
    prices_received ← index2 j "d" "PricesReceived"
    messages_sent ← index2 j "d" "MessagesSent"
    prices_sent ← index2 j "d" "PricesSent"
    send write_fails
        (State.heartbeat sent_by_server messages_received prices_received messages_sent prices_sent)
    pure none

  -- `connection_id_ = msg["cid"].get<std::string>()`.
  unfoldable pub set_connection_id : Json → Action Json Unit
  set_connection_id msg = do
    cid ← lift (index msg "cid")
    id ← lift (get_string cid)
    store_connection_id id

  unfoldable pub process_reconnect_response : Json → Action Json (Option (Event D))
  process_reconnect_response msg = do set_connection_id msg; pure none

  unfoldable pub process_connect_response : Json → Bytes → Bytes → Action Json (Option (Event D))
  process_connect_response msg login_id token = do
    send write_fails (authentication login_id token)
    pure none

  -- The subscriptions of the client, sent one by one.
  unfoldable pub resubscribe : List ℤ → Action Json Unit
  resubscribe [] = pure tt
  resubscribe (q ∷ qs) = do send write_fails (subscribe q); resubscribe qs

  -- Ask for the state of the former connection, if there was one.
  unfoldable pub send_reconnect : Bytes → Action Json Unit
  send_reconnect [] = pure tt
  send_reconnect (b ∷ bs) = send write_fails (reconnect (b ∷ bs))

  -- `process_authentication_response` up to the loop over the subscriptions.
  unfoldable pub before_resubscribe : Json → Action Json Unit
  before_resubscribe msg = do
    result ← index2 msg "d" "Result"
    authenticated ← lift (get_bool result)
    lift (guard authenticated runtime_error)
    with_client (λ c. send_reconnect c.connection_id)
    set_connection_id msg
    send write_fails options

  unfoldable pub process_authentication_response : Json → Action Json (Option (Event D))
  process_authentication_response msg = do
    before_resubscribe msg
    with_client (λ c. resubscribe c.subscribed)
    pure none
