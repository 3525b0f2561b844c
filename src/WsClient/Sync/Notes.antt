-- ===== src/WsClient/Sync/Notes.antt =====
-- What only `subscribe` and `unsubscribe` change: the quotes that the client notes.
use libtd.Base.{ℕ, Option, List, [], ◌∷◌, arith, Result, String}
use libtd.Base.Int.{ℤ}
use libtd.Text.{Bytes}
use libtd.Json.{JsonLib}
use libtd.Types.Tick.{Grouping}
use libtd.Parsing.Numbers.{FloatLib}
use libtd.WsClient.State.{
  Request, Client, Oracle, send, store_connection_id, lift, pure, with_client,
}
use libtd.WsClient.State
use libtd.WsClient.Keeps.{Keeps, Keeps-pure, Keeps-lift, Keeps-bind, Keeps-with_client}
use libtd.WsClient.Messages.{resubscribe}
use libtd.WsClient.Connect.{Read, failed, received, read_or_throw, handshake, connect}
use libtd.WsClient.Loop.{Turn, read_and_process_message}
use libtd.WsClient.Sync.Neutral.{process_connect_response-Keeps}
use libtd.WsClient.Sync.Loop.{authentication_response-Keeps, read_and_process_message-Keeps}

-- A property of the noted quotes.
abbrev pub Notes : (List ℤ → Type 0) → {Json : Type 0} → Client Json → Type 0
Notes R c = R c.subscribed

module _ {D : Type 0} (J : JsonLib D) (F : FloatLib D) (write_fails : Oracle J.Json)
    (order : List (String × Grouping)) (R : List ℤ → Type 0) where
  open J use {Json}

  send-Notes : (r : Request Json) → Keeps (Notes R) (send write_fails r)
  unfolding send
  send-Notes r = record { at = λ c d. ground arith }

  set_id-Notes : (id : Bytes) → Keeps {Json = Json} (Notes R) (store_connection_id id)
  unfolding store_connection_id
  set_id-Notes id = record { at = λ c d. d }

  resubscribe-Notes : (qs : List ℤ) → Keeps (Notes R) (resubscribe J write_fails qs)
  unfolding resubscribe
  resubscribe-Notes [] = Keeps-pure tt
  resubscribe-Notes (q ∷ qs) =
      Keeps-bind _ _ (send-Notes (State.subscribe q)) λ u. resubscribe-Notes qs

  again-Notes :
      Keeps {Json = Json} (Notes R) (with_client (λ c. resubscribe J write_fails c.subscribed))
  again-Notes = Keeps-with_client _ λ c. resubscribe-Notes c.subscribed

  read_or_throw-Notes : (r : Read) → Keeps (Notes R) (read_or_throw J write_fails r)
  unfolding read_or_throw
  read_or_throw-Notes (failed ec) = Keeps-lift _
  read_or_throw-Notes (received buf) = Keeps-lift _

  handshake-Notes :
      (login_id token : Bytes) (opened : Result (Unit {0})) (first second : Read)
      → Keeps (Notes R) (handshake J write_fails login_id token opened first second)
  unfolding handshake
  handshake-Notes login_id token opened first second = Keeps-bind _ _ (Keeps-lift opened) λ u.
      Keeps-bind _ _ (read_or_throw-Notes first) λ msg.
        Keeps-bind _ _
          (process_connect_response-Keeps J write_fails (Notes R) (λ r n. send-Notes r) set_id-Notes
            msg login_id token)
          λ v. Keeps-bind _ _ (read_or_throw-Notes second) λ reply.
            Keeps-bind _ _
              (authentication_response-Keeps J F write_fails order (Notes R) (λ r n. send-Notes r)
                set_id-Notes again-Notes reply)
              λ w. Keeps-pure tt

  pub connect-Notes :
      (url login_id token : Bytes) (opened : Result (Unit {0})) (first second : Read)
      (c : Client Json)
      → Notes R c
      → Notes R ((connect J write_fails url login_id token opened first second c).1)
  unfolding connect
  connect-Notes url login_id token opened first second c t =
      (handshake-Notes login_id token opened first second).at _ t

  pub read_and_process_message-Notes :
      (limit : Option ℕ) (start : ℕ) (script : List Turn) (c : Client Json)
      → Notes R c
      → Notes R ((read_and_process_message J F write_fails order limit start script c).1)
  read_and_process_message-Notes limit start script c t =
      read_and_process_message-Keeps J F write_fails order (Notes R) (λ r n. send-Notes r)
        set_id-Notes again-Notes limit start script c t
