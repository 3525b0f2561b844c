-- ===== src/Td365/Wait.antt =====
-- `td365::wait`: rounds of `read_and_process_message` with a limit of 100 ms, and a refresh of the
-- session over HTTP every 60 s. What the environment does in a round is a record: the two readings of
-- the clock, and the script of the read. The request that refreshes is an argument, which
-- Td365/Methods fills.
use libtd.Base.{ℕ, ◌+◌, leb, if◌then◌else◌, String, Option, some, List, [], ◌∷◌, Result, ok, err}
use libtd.Base.Stateful.{Stateful, ◌>>=◌, give, modify}
use libtd.Json.{JsonLib}
use libtd.Types.Tick.{Grouping}
use libtd.Types.Event.{
  Event, tick_event, account_summary_event, account_details_event, trade_established_event,
  error_event, connection_closed_event, timeout_event,
}
use libtd.Parsing.Numbers.{FloatLib}
use libtd.WsClient.State.{Client, Oracle}
use libtd.Td365.State.{Td365, on_rest}
use libtd.WsClient.Loop.{
  Turn, Outcome, returned, threw, waiting, read_and_process_message, deadline_of, is_expired,
}

-- `now` and `after` are the steady clock in nanoseconds, before the read and behind it.
pub record Round : Type 0 where
  pub now : ℕ
  pub start : ℕ
  pub script : List Turn
  pub after : ℕ

abbrev pub refresh_interval : ℕ
refresh_interval = 60000000000

module _ {Rest Reply Json : Type 0} (refresh : Stateful Rest Reply) where
  -- A refresh that throws leaves the time of the last one.
  unfoldable pub refresh_session : ℕ → Stateful (Td365 Rest Json) (Unit {0})
  unfolding on_rest
  refresh_session now = do
    reply ← on_rest refresh
    modify (λ s. record s { last_session_update = now })

  unfoldable pub update_session : Round → Stateful (Td365 Rest Json) (Unit {0})
  unfolding refresh_session
  update_session r s =
      if leb (s.last_session_update + refresh_interval) r.now
      then refresh_session r.now s
      else give tt s

module _ {RestClient Reply : Type 0} (refresh : Stateful RestClient Reply) {D : Type 0}
    (J : JsonLib D) (F : FloatLib D) (write_fails : Oracle J.Json)
    (order : List (String × Grouping)) where
  open J use {Json}

  -- The rounds that follow.
  abbrev pub Rest : Type 0
  Rest = Td365 RestClient Json → Outcome D × Td365 RestClient Json

  unfoldable pub on_event :
      Rest → Option ℕ → ℕ → Event D → Td365 RestClient Json → Outcome D × Td365 RestClient Json
  on_event rest deadline after timeout_event s =
      let next = rest s in if is_expired deadline after then (returned timeout_event, s) else next
  on_event rest deadline after (tick_event t) s = (returned (tick_event t), s)
  on_event rest deadline after (account_summary_event a) s = (returned (account_summary_event a), s)
  on_event rest deadline after (account_details_event a) s = (returned (account_details_event a), s)
  on_event rest deadline after (trade_established_event t) s =
      (returned (trade_established_event t), s)
  on_event rest deadline after (error_event e) s = (returned (error_event e), s)
  on_event rest deadline after connection_closed_event s = (returned connection_closed_event, s)

  unfoldable pub on_outcome :
      Rest
      → Option ℕ
      → ℕ
      → Outcome D × Client Json
      → Td365 RestClient Json
      → Outcome D × Td365 RestClient Json
  unfolding on_event
  on_outcome rest deadline after (returned e, c) s =
      on_event rest deadline after e (record s { ws_client = c })
  on_outcome rest deadline after (threw e, c) s = (threw e, record s { ws_client = c })
  on_outcome rest deadline after (waiting, c) s = (waiting, record s { ws_client = c })

  unfoldable pub on_session :
      Rest
      → Option ℕ
      → Round
      → Result (Unit {0}) × Td365 RestClient Json
      → Outcome D × Td365 RestClient Json
  unfolding on_outcome read_and_process_message
  on_session rest deadline r (err e, s) = (threw e, s)
  on_session rest deadline r (ok u, s) =
      on_outcome rest deadline r.after
        (read_and_process_message J F write_fails order (some 100) r.start r.script s.ws_client) s

  unfoldable pub wait_loop :
      Option ℕ → List Round → Td365 RestClient Json → Outcome D × Td365 RestClient Json
  unfolding on_session update_session
  wait_loop deadline [] s = (waiting, s)
  wait_loop deadline (r ∷ rs) s =
      on_session (wait_loop deadline rs) deadline r (update_session refresh r s)

  -- The limit counts milliseconds from `start`.
  unfoldable pub wait :
      Option ℕ → ℕ → List Round → Td365 RestClient Json → Outcome D × Td365 RestClient Json
  unfolding wait_loop deadline_of
  wait limit start rounds s = wait_loop (deadline_of start limit) rounds s
