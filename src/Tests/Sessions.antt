-- ===== src/Tests/Sessions.antt =====
-- Sessions of the client on concrete messages.
use libtd.Base.{
  String, List, [], ◌∷◌, ◌++◌, map, true, false, ◌≡◌, refl, some, none, ok, err, arith, ◌>>=◌,
  system_error,
}
use libtd.Base.Int.{ℤ, pos}
use libtd.Text.{Bytes, codes, equal}
use libtd.Types.Tick.{grouped, sampled}
use libtd.Types.Event.{account_summary_event, tick_event}
use libtd.Parsing.GroupingNames.{grouping_map}
use libtd.Parsing.TdTick.{parse_td_tick}
use libtd.WsClient.State.{
  Request, options, heartbeat, Client, Oracle, initial, send, store_connection_id,
}
use libtd.WsClient.State
use libtd.WsClient.Subscriptions.{contains, subscribe}
use libtd.WsClient.Messages.{
  process_authentication_response, process_connect_response, before_resubscribe, index2,
  set_connection_id, send_reconnect, resubscribe,
}
use libtd.Json.{JsonLib, int_at}
use libtd.WsClient.PayloadTypes.{string_to_payload_type}
use libtd.WsClient.Payloads.{process_account_summary, empty_summary}
use libtd.WsClient.Connect.{connect, handshake, read_or_throw, Read, received, failed, timed_out}
use libtd.WsClient.Delivery.{passed, none_yet, read_and_process_message-Quiet}
use libtd.WsClient.Loop.{
  returned, deadline_of, dispatch, handle, is_expired, Turn, read_and_process_message,
}
use libtd.WsClient.Sync.{serves, IsSynced, IsDistinct}
use libtd.WsClient.Sync.Handle.{read_and_process_message-IsSynced}
use libtd.WsClient.Sync.Session.{
  subscribes, Reach, here, next, Reach-IsDistinct, Reach-connect-IsSynced,
}
use libtd.WsClient.Deadline.{HasEnded, read_and_process_message-HasEnded}
use libtd.WsClient.Protocol.{
  former, reliable, subscribe_twice, process_authentication_response_lem, process_heartbeat_lem,
}
use libtd.WsClient.Prices.{handle_first_price}
use libtd.Tests.Library.{Value, json, float, of_entries, of_items, text, number}

abbrev pub never : Oracle Value
never _ _ = false

abbrev always : Oracle Value
always _ _ = true

-- A client before its first connection, which noted a quote all the same.
abbrev pub offline : Client Value
offline = record (initial Value) { subscribed = pos 5 ∷ [] }

-- A client whose server serves the quote that it notes.
abbrev pub online : Client Value
online = record (initial Value) {
  connected = true;
  connection_id = codes "a";
  subscribed = pos 5 ∷ [];
  sent = State.subscribe (pos 5) ∷ [];
}

abbrev pub greeted : Read
greeted = received (codes "g")

abbrev pub accepting : Read
accepting = received (codes "a")

offline_reached : Reach json float never grouping_map (initial Value) offline
unfolding subscribe
offline_reached = next here (subscribes (pos 5))

pub five-IsDistinct : IsDistinct (pos 5 ∷ [])
unfolding contains
five-IsDistinct = (refl, tt)

pub online-IsSynced : IsSynced online
unfolding serves contains
online-IsSynced = record { distinct = five-IsDistinct; agrees = λ q. refl }

pub connect-returns :
    (url login_id token : Bytes) (c : Client Value)
    → c.connection_id ≡ []
    → c.subscribed ≡ pos 5 ∷ []
    → (connect json never url login_id token (ok tt) greeted accepting c).0 ≡ ok tt
unfolding connect handshake read_or_throw process_connect_response process_authentication_response
    before_resubscribe index2 set_connection_id send_reconnect resubscribe send store_connection_id
    State.◌>>=◌
connect-returns url login_id token c e f = simp (e, f) refl

subscribe-throws : (subscribe always (pos 9) online).0 ≡ err system_error
unfolding subscribe contains send
subscribe-throws = refl

Reach-connect-IsSynced_example :
    IsSynced
      (connect json never (codes "u") (codes "l") (codes "t") (ok tt) greeted accepting offline).1
Reach-connect-IsSynced_example =
    Reach-connect-IsSynced json float never grouping_map offline (codes "u") (codes "l") (codes "t")
      (ok tt) greeted accepting offline_reached
      (connect-returns (codes "u") (codes "l") (codes "t") offline refl refl)

-- A heartbeat, and then a turn behind the limit of 2 ms.
abbrev pub beating : Turn
beating = record { now = 10; wall = pos 0; read = received (codes "h") }

abbrev pub late : Turn
late = record { now = 3000000; wall = pos 0; read = failed timed_out }

read_and_process_message-IsSynced_example :
    IsSynced
      (read_and_process_message json float never grouping_map
        (some 2)
        0
        (beating ∷ late ∷ [])
        online).1
read_and_process_message-IsSynced_example =
    read_and_process_message-IsSynced json float never grouping_map (some 2) 0 (beating ∷ late ∷ [])
      online online-IsSynced

process_authentication_response_lem_example :
    process_authentication_response json reliable
      (of_entries
        (("d", of_entries (("Result", Value.boolean true) ∷ [])) ∷ ("cid", text (codes "b")) ∷ []))
      online
    ≡ (
      ok none,
      record online {
        connection_id = codes "b";
        sent =
            online.sent
            ++ (former online.connection_id ++ options ∷ map State.subscribe online.subscribed);
      },
    )
process_authentication_response_lem_example =
    process_authentication_response_lem json (codes "b") online refl

Reach-IsDistinct_example : IsDistinct offline.subscribed
Reach-IsDistinct_example = Reach-IsDistinct json float never grouping_map offline_reached tt

read_and_process_message-HasEnded_example :
    HasEnded
      (read_and_process_message json float never grouping_map
        (some 2)
        0
        ((beating ∷ []) ++ late ∷ [])
        online).0
read_and_process_message-HasEnded_example =
    read_and_process_message-HasEnded json float never grouping_map 2 0 (beating ∷ []) [] late
      online (omega arith)

subscribe_twice_example :
    subscribe always (pos 9) (subscribe always (pos 9) online).1
    ≡ (ok tt, (subscribe always (pos 9) online).1)
subscribe_twice_example = subscribe_twice always (pos 9) online system_error refl subscribe-throws

-- A message with two prices of one group.
abbrev first_line : Bytes
first_line = codes "1,2,3,4,u,1,5,6,h,1,7,638400000000000000,8"

abbrev two_prices : List (String × Value)
two_prices = ("sp", of_items (text first_line ∷ text (codes "3,4") ∷ [])) ∷ []

abbrev price_message : List (String × Value)
price_message = ("t", text (codes "p")) ∷ ("d", of_entries two_prices) ∷ []

abbrev priced : JsonLib ℤ
priced = record json { parse = λ buf. ok (of_entries price_message) }

handle_first_price_example :
    handle priced float never
      ((("gp", grouped) ∷ []) ++ ("sp", sampled) ∷ [])
      (codes "m")
      (pos 0)
      online
    ≡ ((parse_td_tick float first_line sampled (pos 0) >>= λ t. ok (some (tick_event t))), online)
handle_first_price_example =
    handle_first_price priced float never (("gp", grouped) ∷ []) [] "sp" sampled (codes "m")
      price_message two_prices first_line (codes "3,4" ∷ []) (pos 0) online refl refl refl
      (refl, tt) refl

-- A message about the account behind the heartbeat, before the limit.
abbrev about_account : Turn
about_account = record { now = 20; wall = pos 0; read = received (codes "s") }

beat-answered : handle json float reliable grouping_map (codes "h") (pos 0) online ≡ (
  ok none,
  record online {
    sent =
        online.sent
        ++ heartbeat
            (number (pos 1))
            (number (pos 2))
            (number (pos 3))
            (number (pos 4))
            (number (pos 5))
          ∷ [];
  },
)
unfolding handle dispatch string_to_payload_type equal State.◌>>=◌
beat-answered =
    process_heartbeat_lem json (number (pos 1)) (number (pos 2)) (number (pos 3)) (number (pos 4))
      (number (pos 5)) online refl

abbrev answered : Client Value
answered = record online {
  sent =
      online.sent
      ++ heartbeat (number (pos 1)) (number (pos 2)) (number (pos 3)) (number (pos 4))
          (number (pos 5))
        ∷ [];
}

summary-read :
    handle json float reliable grouping_map (codes "s") (pos 0) answered
    ≡ (ok (some (account_summary_event (empty_summary float))), answered)
unfolding handle dispatch string_to_payload_type process_account_summary equal State.◌>>=◌ int_at
summary-read = refl

read_and_process_message-Quiet_example :
    read_and_process_message json float reliable grouping_map
      (some 2)
      0
      ((beating ∷ []) ++ about_account ∷ [])
      online
    ≡ (returned (account_summary_event (empty_summary float)), answered)
unfolding is_expired deadline_of
read_and_process_message-Quiet_example =
    read_and_process_message-Quiet json float reliable grouping_map (some 2) 0 (beating ∷ []) []
      about_account (codes "s") (account_summary_event (empty_summary float)) online answered
      answered (passed refl refl beat-answered none_yet) refl refl summary-read
