-- ===== src/Td365/Timeouts.antt =====
-- The timeouts of the reads within `wait`.
use libtd.Base.{ℕ, String, none, List, [], ◌∷◌, Result, ok, err}
use libtd.Base.Stateful.{Stateful}
use libtd.Json.{JsonLib}
use libtd.Types.Tick.{Grouping}
use libtd.Types.Event.{
  Event, tick_event, account_summary_event, account_details_event, trade_established_event,
  error_event, connection_closed_event, timeout_event,
}
use libtd.Parsing.Numbers.{FloatLib}
use libtd.WsClient.State.{Client, Oracle}
use libtd.WsClient.Loop.{Outcome, returned, threw, waiting, deadline_of, is_expired}
use libtd.Td365.State.{Td365}
use libtd.Td365.Wait.{
  Round, update_session, Rest, on_event, on_outcome, on_session, wait_loop, wait,
}

-- The outcome is not the event that a time limit has passed.
pub IsNoTimeout : {D : Type 0} → Outcome D → Type 0
IsNoTimeout (returned timeout_event) = ⊥
IsNoTimeout (returned (tick_event t)) = Unit
IsNoTimeout (returned (account_summary_event t)) = Unit
IsNoTimeout (returned (account_details_event t)) = Unit
IsNoTimeout (returned (trade_established_event t)) = Unit
IsNoTimeout (returned (error_event t)) = Unit
IsNoTimeout (returned connection_closed_event) = Unit
IsNoTimeout (threw e) = Unit
IsNoTimeout waiting = Unit

module _ {RestClient Reply : Type 0} (refresh : Stateful RestClient Reply) {D : Type 0}
    (J : JsonLib D) (F : FloatLib D) (write_fails : Oracle J.Json)
    (order : List (String × Grouping)) where
  open J use {Json}

  on_event-IsNoTimeout :
      (rest : Rest refresh J F write_fails order) (after : ℕ) (e : Event D)
      (s : Td365 RestClient Json)
      → ((s : Td365 RestClient Json) → IsNoTimeout (rest s).0)
      → IsNoTimeout (on_event refresh J F write_fails order rest none after e s).0
  unfolding on_event is_expired IsNoTimeout
  on_event-IsNoTimeout rest after timeout_event s h = h s
  on_event-IsNoTimeout rest after (tick_event t) s h = tt
  on_event-IsNoTimeout rest after (account_summary_event t) s h = tt
  on_event-IsNoTimeout rest after (account_details_event t) s h = tt
  on_event-IsNoTimeout rest after (trade_established_event t) s h = tt
  on_event-IsNoTimeout rest after (error_event t) s h = tt
  on_event-IsNoTimeout rest after connection_closed_event s h = tt

  on_outcome-IsNoTimeout :
      (rest : Rest refresh J F write_fails order) (after : ℕ) (o : Outcome D × Client Json)
      (s : Td365 RestClient Json)
      → ((s : Td365 RestClient Json) → IsNoTimeout (rest s).0)
      → IsNoTimeout (on_outcome refresh J F write_fails order rest none after o s).0
  unfolding on_outcome IsNoTimeout
  on_outcome-IsNoTimeout rest after (returned e, c) s h =
      on_event-IsNoTimeout rest after e (record s { ws_client = c }) h
  on_outcome-IsNoTimeout rest after (threw e, c) s h = tt
  on_outcome-IsNoTimeout rest after (waiting, c) s h = tt

  on_session-IsNoTimeout :
      (rest : Rest refresh J F write_fails order) (r : Round)
      (o : Result (Unit {0}) × Td365 RestClient Json)
      → ((s : Td365 RestClient Json) → IsNoTimeout (rest s).0)
      → IsNoTimeout (on_session refresh J F write_fails order rest none r o).0
  unfolding on_session IsNoTimeout
  on_session-IsNoTimeout rest r (err e, s) h = tt
  on_session-IsNoTimeout rest r (ok u, s) h = on_outcome-IsNoTimeout rest r.after _ s h

  wait_loop-IsNoTimeout :
      (rs : List Round) (s : Td365 RestClient Json)
      → IsNoTimeout (wait_loop refresh J F write_fails order none rs s).0
  unfolding wait_loop IsNoTimeout
  wait_loop-IsNoTimeout [] s = tt
  wait_loop-IsNoTimeout (r ∷ rs) s =
      on_session-IsNoTimeout (wait_loop refresh J F write_fails order none rs) r
        (update_session refresh r s) (λ s'. wait_loop-IsNoTimeout rs s')

  -- Without a limit, wait never returns a timeout event.
  pub wait-IsNoTimeout :
      (start : ℕ) (rounds : List Round) (s : Td365 RestClient Json)
      → IsNoTimeout (wait refresh J F write_fails order none start rounds s).0
  unfolding wait deadline_of
  wait-IsNoTimeout start rounds s = wait_loop-IsNoTimeout rounds s
