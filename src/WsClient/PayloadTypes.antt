-- ===== src/WsClient/PayloadTypes.antt =====
-- `payload_type` and `string_to_payload_type`.
use libtd.Base.{if◌then◌else◌}
use libtd.Text.{Bytes, codes, equal}

pub data PayloadType : Type 0 where
  heartbeat connect_response reconnect_response authentication_response unknown : PayloadType
  subscribe_response price_data account_summary account_details trade_established : PayloadType

unfoldable pub string_to_payload_type : Bytes → PayloadType
string_to_payload_type s =
    if equal s (codes "heartbeat")
    then PayloadType.heartbeat
    else if equal s (codes "connectResponse")
    then connect_response
    else if equal s (codes "reconnectResponse")
    then reconnect_response
    else if equal s (codes "authenticationResponse")
    then authentication_response
    else if equal s (codes "subscribeResponse")
    then subscribe_response
    else if equal s (codes "p")
    then price_data
    else if equal s (codes "accountSummary")
    then account_summary
    else if equal s (codes "accountDetails")
    then account_details
    else if equal s (codes "tradeEstablished")
    then trade_established
    else unknown
