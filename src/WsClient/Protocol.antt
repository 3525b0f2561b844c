-- ===== src/WsClient/Protocol.antt =====
-- What single messages make the client send and keep.
use libtd.Base.{
  true, false, none, List, [], ◌∷◌, ◌++◌, map, ◌≡◌, refl, ◌∙◌, ap, arith, Error, ok, err,
}
use mathlib.Core.List.{append-nil, append_assoc}
use libtd.Base.Int.{ℤ, eqb_ℤ_iff}
use libtd.WsClient.Sync.{contains-append}
use libtd.Text.{Bytes, codes}
use libtd.Json.{JsonLib}
use libtd.WsClient.State.{
  Request, authentication, reconnect, options, heartbeat, Client, Action, Oracle, send,
  store_connection_id, lift, pure, with_client, ◌>>=◌, ◌>>◌,
}
use libtd.WsClient.State
use libtd.WsClient.Subscriptions.{subscribe}
use libtd.WsClient.Messages.{
  process_authentication_response, before_resubscribe, resubscribe, send_reconnect, index2,
  set_connection_id, process_heartbeat,
}

-- A subscribe that throws on an open socket leaves the quote noted, so that a second subscribe of
-- it sends nothing and returns.
pub subscribe_twice :
    {Json : Type 0} (write_fails : Oracle Json) (q : ℤ) (c : Client Json) (e : Error)
    → c.connected ≡ true
    → (subscribe write_fails q c).0 ≡ err e
    → subscribe write_fails q (subscribe write_fails q c).1 ≡ (ok tt, (subscribe write_fails q c).1)
unfolding subscribe send pure
subscribe_twice write_fails q c e k h =
    ground (arith, contains-append c.subscribed q q, eqb_ℤ_iff q q)

-- The request for the state of a former connection.
pub former : {Json : Type 0} → Bytes → List (Request Json)
former [] = []
former (b ∷ bs) = reconnect (b ∷ bs) ∷ []

-- A socket whose writes all succeed.
abbrev pub reliable : {Json : Type 0} → Oracle Json
reliable _ _ = false

module _ {D : Type 0} (J : JsonLib D) where
  open J use {
    Json, of_bool, of_string, object, index-object, get_bool-of_bool, get_string-of_string,
  }

  resubscribe-eq :
      (qs : List ℤ) (c : Client Json)
      → c.connected ≡ true
      → resubscribe J reliable qs c ≡ (ok tt, record c { sent = c.sent ++ map State.subscribe qs })
  unfolding resubscribe send ◌>>=◌
  resubscribe-eq [] c h = ground (arith, append-nil c.sent)
  resubscribe-eq (q ∷ qs) c h = ground (
    arith,
    resubscribe-eq qs (record c { sent = c.sent ++ State.subscribe q ∷ [] }),
    append_assoc c.sent (State.subscribe q ∷ []) (map State.subscribe qs),
  )

  send_reconnect-eq :
      (id : Bytes) (c : Client Json)
      → c.connected ≡ true
      → send_reconnect J reliable id c ≡ (ok tt, record c { sent = c.sent ++ former id })
  unfolding send_reconnect send former pure
  send_reconnect-eq [] c h = ground (arith, append-nil c.sent)
  send_reconnect-eq (b ∷ bs) c h = ground arith

  -- A message that accepts the token, with the identifier of the new connection.
  abbrev pub accepted : Bytes → Json
  accepted cid =
      object (("d", object (("Result", of_bool true) ∷ [])) ∷ ("cid", of_string cid) ∷ [])

  before_resubscribe-eq :
      (cid : Bytes) (c : Client Json)
      → c.connected ≡ true
      → before_resubscribe J reliable (accepted cid) c ≡ (
        ok tt,
        record c { connection_id = cid; sent = (c.sent ++ former c.connection_id) ++ options ∷ [] },
      )
  unfolding before_resubscribe index2 set_connection_id ◌>>=◌ send store_connection_id
  before_resubscribe-eq cid c h =
      simp
        (
          index-object,
          get_bool-of_bool,
          get_string-of_string,
          h,
          send_reconnect-eq c.connection_id c h,
        )
        refl

  -- When the server accepts the token and every write succeeds on an open socket, the client asks
  -- for its former connection if it has one, then for the account messages, then for each noted
  -- quote in order, and takes over the new connection identifier.
  pub process_authentication_response_lem :
      (cid : Bytes) (c : Client Json)
      → c.connected ≡ true
      → process_authentication_response J reliable
          (object (("d", object (("Result", of_bool true) ∷ [])) ∷ ("cid", of_string cid) ∷ []))
          c
        ≡ (
          ok none,
          record c {
            connection_id = cid;
            sent = c.sent ++ (former c.connection_id ++ options ∷ map State.subscribe c.subscribed);
          },
        )
  unfolding process_authentication_response ◌>>=◌
  process_authentication_response_lem cid c h =
      rw
        (
          before_resubscribe-eq cid c h,
          resubscribe-eq c.subscribed
              (record c {
                connection_id = cid;
                sent = (c.sent ++ former c.connection_id) ++ options ∷ [];
              })
              h,
        )
        (ap (λ xs. (ok none, record c { connection_id = cid; sent = xs }))
          (append_assoc (c.sent ++ former c.connection_id) (options ∷ [])
              (map State.subscribe c.subscribed)
            ∙ append_assoc c.sent (former c.connection_id)
                (options ∷ map State.subscribe c.subscribed)))

  -- On an open socket whose writes succeed, a heartbeat with its five counters is answered with
  -- the same five counters, and gives no event.
  pub process_heartbeat_lem :
      (a b d e f : Json) (c : Client Json)
      → c.connected ≡ true
      → process_heartbeat J reliable
          (object (
            ("t", of_string (codes "heartbeat"))
            ∷ (
              "d",
              object (
                  ("SentByServer", a)
                  ∷ ("MessagesReceived", b)
                  ∷ ("PricesReceived", d)
                  ∷ ("MessagesSent", e)
                  ∷ ("PricesSent", f)
                  ∷ []),
            )
            ∷ []))
          c
        ≡ (ok none, record c { sent = c.sent ++ heartbeat a b d e f ∷ [] })
  unfolding process_heartbeat index2 ◌>>=◌ send
  process_heartbeat_lem a b d e f c h = simp (index-object, h) refl
