-- ===== src/WsClient/Sync/Neutral.antt =====
-- The handlers that send no subscription keep every property that neutral requests and a new
-- connection identifier keep.
use libtd.Base.{Bool, String, [], ◌∷◌, ◌≡◌, refl}
use libtd.Base.Int.{ℤ}
use libtd.Text.{Bytes}
use libtd.Json.{JsonLib}
use libtd.WsClient.State.{
  Request, authentication, reconnect, options, heartbeat, Client, Oracle, send, store_connection_id,
}
use libtd.WsClient.Keeps.{Keeps, Keeps-pure, keeps_rules}
use libtd.WsClient.Messages.{
  before_resubscribe, index2, process_heartbeat, set_connection_id, process_connect_response,
  process_reconnect_response, send_reconnect,
}
use libtd.WsClient.Sync.{serves}

-- A request that is neither a subscription nor the end of one.
abbrev pub IsNeutral : {Json : Type 0} → Request Json → Type 0
IsNeutral r = (q : ℤ) (b : Bool) → serves q b (r ∷ []) ≡ b

module _ {D : Type 0} (J : JsonLib D) (write_fails : Oracle J.Json) (P : Client J.Json → Type 0)
    (keeps_send : (r : Request J.Json) → IsNeutral r → Keeps P (send write_fails r))
    (keeps_id : (id : Bytes) → Keeps P (store_connection_id id)) where
  open J use {Json}

  set_connection_id-Keeps : (msg : Json) → Keeps P (set_connection_id J write_fails msg)
  unfolding set_connection_id
  set_connection_id-Keeps msg = search (keeps_rules, keeps_id)

  index2-Keeps : (msg : Json) (j k : String) → Keeps P (index2 J write_fails msg j k)
  unfolding index2
  index2-Keeps msg j k = search keeps_rules

  heartbeat-Keeps : (a b d e f : Json) → Keeps P (send write_fails (heartbeat a b d e f))
  unfolding serves
  heartbeat-Keeps a b d e f = keeps_send _ (λ q x. refl)

  authentication-Keeps : (l t : Bytes) → Keeps P (send write_fails (authentication l t))
  unfolding serves
  authentication-Keeps l t = keeps_send _ (λ q x. refl)

  options-Keeps : Keeps P (send write_fails options)
  unfolding serves
  options-Keeps = keeps_send _ (λ q x. refl)

  send_reconnect-Keeps : (id : Bytes) → Keeps P (send_reconnect J write_fails id)
  unfolding send_reconnect serves
  send_reconnect-Keeps [] = Keeps-pure tt
  send_reconnect-Keeps (b ∷ bs) = keeps_send (reconnect (b ∷ bs)) (λ q x. refl)

  pub process_heartbeat-Keeps : (msg : Json) → Keeps P (process_heartbeat J write_fails msg)
  unfolding process_heartbeat
  process_heartbeat-Keeps msg = search (keeps_rules, index2-Keeps, heartbeat-Keeps) depth 9

  pub process_connect_response-Keeps :
      (msg : Json) (l t : Bytes) → Keeps P (process_connect_response J write_fails msg l t)
  unfolding process_connect_response
  process_connect_response-Keeps msg l t = search (keeps_rules, authentication-Keeps)

  pub process_reconnect_response-Keeps :
      (msg : Json) → Keeps P (process_reconnect_response J write_fails msg)
  unfolding process_reconnect_response
  process_reconnect_response-Keeps msg = search (keeps_rules, set_connection_id-Keeps)

  -- The part of the answer to an authentication that comes before the resubscription.
  pub before_resubscribe-Keeps : (msg : Json) → Keeps P (before_resubscribe J write_fails msg)
  unfolding before_resubscribe
  before_resubscribe-Keeps msg =
      search
        (keeps_rules, index2-Keeps, send_reconnect-Keeps, set_connection_id-Keeps, options-Keeps)
        depth 10
