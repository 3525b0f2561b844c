-- ===== src/Td365/Waiting.antt =====
-- What `wait` keeps: a property of the ws_client that its reads keep, and the time of the last refresh.
use libtd.Base.{
  ℕ, Bool-cases, inl, inr, String, Option, some, List, [], ◌∷◌, ◌≡◌, refl, arith, Result, ok, err,
}
use libtd.Base.Stateful.{joined, Stateful, ◌>>=◌, continue, modify}
use libtd.Json.{JsonLib}
use libtd.Types.Tick.{Grouping}
use libtd.Types.Event.{
  Event, tick_event, account_summary_event, account_details_event, trade_established_event,
  error_event, connection_closed_event, timeout_event,
}
use libtd.Parsing.Numbers.{FloatLib}
use libtd.WsClient.State.{Client, Oracle}
use libtd.WsClient.Loop.{
  Turn, Outcome, returned, threw, waiting, deadline_of, is_expired, read_and_process_message,
}
use libtd.WsClient.Sync.{IsSynced}
use libtd.WsClient.Sync.Handle.{read_and_process_message-IsSynced}
use libtd.Td365.State.{Td365, on_rest}
use libtd.Td365.Wait.{
  Round, refresh_session, update_session, Rest, on_event, on_outcome, on_session, wait_loop, wait,
}

module _ {RestClient Reply : Type 0} (refresh : Stateful RestClient Reply) {D : Type 0}
    (J : JsonLib D) (F : FloatLib D) (write_fails : Oracle J.Json)
    (order : List (String × Grouping)) where
  open J use {Json}

  -- What the rounds keep, if the refreshes and the reads do.
  module _ (P : Td365 RestClient Json → Type 0)
      (update_keeps : (r : Round) (s : Td365 RestClient Json)
        → P s
        → P ((update_session refresh r s).1))
      (read_keeps : (start : ℕ) (script : List Turn) (s : Td365 RestClient Json)
        → P s
        → P (record s {
          ws_client =
              (read_and_process_message J F write_fails order
                (some 100)
                start
                script
                s.ws_client).1;
        })) where
    on_event-keeps :
        (rest : Rest refresh J F write_fails order) (deadline : Option ℕ) (after : ℕ) (e : Event D)
        (s : Td365 RestClient Json)
        → ((s : Td365 RestClient Json) → P s → P ((rest s).1))
        → P s
        → P ((on_event refresh J F write_fails order rest deadline after e s).1)
    unfolding on_event
    on_event-keeps rest deadline after timeout_event s h k =
        elim (Bool-cases (is_expired deadline after)) [
          | inl late ↦ rw late k
          | inr early ↦ rw early (h s k)
        ]
    on_event-keeps rest deadline after (tick_event t) s h k = k
    on_event-keeps rest deadline after (account_summary_event t) s h k = k
    on_event-keeps rest deadline after (account_details_event t) s h k = k
    on_event-keeps rest deadline after (trade_established_event t) s h k = k
    on_event-keeps rest deadline after (error_event t) s h k = k
    on_event-keeps rest deadline after connection_closed_event s h k = k

    on_outcome-keeps :
        (rest : Rest refresh J F write_fails order) (deadline : Option ℕ) (after : ℕ)
        (o : Outcome D × Client Json) (s : Td365 RestClient Json)
        → ((s : Td365 RestClient Json) → P s → P ((rest s).1))
        → P (record s { ws_client = o.1 })
        → P ((on_outcome refresh J F write_fails order rest deadline after o s).1)
    unfolding on_outcome
    on_outcome-keeps rest deadline after (returned e, c) s h k =
        on_event-keeps rest deadline after e (record s { ws_client = c }) h k
    on_outcome-keeps rest deadline after (threw e, c) s h k = k
    on_outcome-keeps rest deadline after (waiting, c) s h k = k

    on_session-keeps :
        (rest : Rest refresh J F write_fails order) (deadline : Option ℕ) (r : Round)
        (o : Result (Unit {0}) × Td365 RestClient Json)
        → ((s : Td365 RestClient Json) → P s → P ((rest s).1))
        → P (o.1)
        → P ((on_session refresh J F write_fails order rest deadline r o).1)
    unfolding on_session
    on_session-keeps rest deadline r (err e, s) h k = k
    on_session-keeps rest deadline r (ok u, s) h k =
        on_outcome-keeps rest deadline r.after _ s h (read_keeps r.start r.script s k)

    wait_loop-keeps :
        (deadline : Option ℕ) (rs : List Round) (s : Td365 RestClient Json)
        → P s
        → P ((wait_loop refresh J F write_fails order deadline rs s).1)
    unfolding wait_loop
    wait_loop-keeps deadline [] s k = k
    wait_loop-keeps deadline (r ∷ rs) s k =
        on_session-keeps (wait_loop refresh J F write_fails order deadline rs) deadline r
          (update_session refresh r s) (λ s' k'. wait_loop-keeps deadline rs s' k')
          (update_keeps r s k)

    pub wait-keeps :
        (limit : Option ℕ) (start : ℕ) (rounds : List Round) (s : Td365 RestClient Json)
        → P s
        → P ((wait refresh J F write_fails order limit start rounds s).1)
    unfolding wait
    wait-keeps limit start rounds s k = wait_loop-keeps (deadline_of start limit) rounds s k

  refreshed-ws_client :
      (now : ℕ) (s : Td365 RestClient Json) (o : Result Reply × RestClient)
      → (continue {Value = Reply}
          (λ _. modify (λ s. record s { last_session_update = now }))
          (joined (λ r. record s { rest_client = r }) o)).1.ws_client
        ≡ s.ws_client
  refreshed-ws_client now s (ok u, r) = refl
  refreshed-ws_client now s (err e, r) = refl

  update_session-ws_client :
      (r : Round) (s : Td365 RestClient Json)
      → (update_session {Json = Json} refresh r s).1.ws_client ≡ s.ws_client
  unfolding update_session refresh_session on_rest ◌>>=◌
  update_session-ws_client r s =
      ground (arith, refreshed-ws_client r.now s (refresh (s.rest_client)))

  -- A property of the ws_client that its reads keep is kept by wait.
  pub wait-ws_client :
      (Q : Client Json → Type 0)
      → ((start : ℕ) (script : List Turn) (c : Client Json)
          → Q c
          → Q ((read_and_process_message J F write_fails order (some 100) start script c).1))
      → (limit : Option ℕ) (start : ℕ) (rounds : List Round) (s : Td365 RestClient Json)
      → Q (s.ws_client)
      → Q ((wait refresh J F write_fails order limit start rounds s).1.ws_client)
  wait-ws_client Q reads limit start rounds s k =
      wait-keeps (λ s. Q (s.ws_client)) (λ r s h. rw (update_session-ws_client r s) h)
        (λ start script s h. reads start script (s.ws_client) h) limit start rounds s k

  -- If the server serves exactly the quotes that the client notes, it still does after wait,
  -- whatever comes in and however the refreshes of the session and the call end.
  pub wait-IsSynced :
      (limit : Option ℕ) (start : ℕ) (rounds : List Round) (s : Td365 RestClient Json)
      → IsSynced s.ws_client
      → IsSynced (wait refresh J F write_fails order limit start rounds s).1.ws_client
  wait-IsSynced = wait-ws_client IsSynced (λ start script c h.
      read_and_process_message-IsSynced J F write_fails order (some 100) start script c h)
