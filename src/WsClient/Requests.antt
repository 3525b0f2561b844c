-- ===== src/WsClient/Requests.antt =====
-- The JSON bodies of the requests.
use libtd.Base.{true, [], ◌∷◌}
use libtd.Text.{Bytes, codes}
use libtd.Json.{JsonLib}
use libtd.WsClient.State.{
  Request, subscribe, unsubscribe, authentication, reconnect, options, heartbeat,
}

-- `supported_version_`.
abbrev pub supported_version : Bytes
supported_version = codes "1.0.0.6"

module _ {D : Type 0} (J : JsonLib D) where
  open J use {Json, of_int, of_bool, of_string, object, dump}

  unfoldable pub body : Request Json → Json
  body (subscribe quote_id) = object (
      ("quoteId", of_int quote_id)
      ∷ ("priceGrouping", of_string (codes "Sampled"))
      ∷ ("action", of_string (codes "subscribe"))
      ∷ [])
  body (unsubscribe quote_id) = object (
      ("quoteId", of_int quote_id)
      ∷ ("priceGrouping", of_string (codes "Sampled"))
      ∷ ("action", of_string (codes "unsubscribe"))
      ∷ [])
  body (authentication login_id token) = object (
      ("action", of_string (codes "authentication"))
      ∷ ("loginId", of_string login_id)
      ∷ ("tradingAccountType", of_string (codes "SPREAD"))
      ∷ ("token", of_string token)
      ∷ ("reason", of_string (codes "Connect"))
      ∷ ("clientVersion", of_string supported_version)
      ∷ [])
  body (reconnect connection_id) = object (
      ("action", of_string (codes "reconnect"))
      ∷ ("originalConnectionId", of_string connection_id)
      ∷ [])
  body options = object (
      (
        "data",
        of_string (codes "{\"SubscribeToAccountSummary\":true,\"SubscribeToAccountDetails\":true}"),
      )
      ∷ ("action", of_string (codes "options"))
      ∷ [])
  body (heartbeat sent_by_server messages_received prices_received messages_sent prices_sent) =
      object (
        ("SentByServer", sent_by_server)
        ∷ ("MessagesReceived", messages_received)
        ∷ ("PricesReceived", prices_received)
        ∷ ("MessagesSent", messages_sent)
        ∷ ("PricesSent", prices_sent)
        ∷ ("Visible", of_bool true)
        ∷ ("action", of_string (codes "heartbeat"))
        ∷ [])

  -- The text of a request on the wire.
  unfoldable pub message : Request Json → Bytes
  unfolding body
  message r = dump (body r)
