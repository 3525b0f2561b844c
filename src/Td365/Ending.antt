-- ===== src/Td365/Ending.antt =====
-- The time limit of `wait`.
use libtd.Base.{
  ℕ, ◌+◌, ◌*◌, ◌≤◌, ◌⊎◌, true, Bool-cases, inl, inr, String, Option, some, List, [], ◌∷◌, ◌++◌, All,
  ◌≡◌, arith, Result, ok, err,
}
use libtd.Base.Stateful.{Stateful}
use libtd.Json.{JsonLib}
use libtd.Types.Tick.{Grouping}
use libtd.Types.Event.{
  Event, tick_event, account_summary_event, account_details_event, trade_established_event,
  error_event, connection_closed_event, timeout_event,
}
use libtd.Parsing.Numbers.{FloatLib}
use libtd.WsClient.State.{Client, Oracle}
use libtd.WsClient.Loop.{
  Turn, Outcome, returned, threw, waiting, read_and_process_message, deadline_of, is_expired,
}
use libtd.WsClient.Deadline.{HasEnded, read_and_process_message-HasEnded}
use libtd.Td365.State.{Td365}
use libtd.Td365.Wait.{
  Round, update_session, Rest, on_event, on_outcome, on_session, wait_loop, wait,
}

-- The script of the read holds a turn at or after its limit of 100 ms.
pub record IsTimely (r : Round) : Type 0 where
  pub earlier : List Turn
  pub late : Turn
  pub later : List Turn
  pub script : r.script ≡ earlier ++ late ∷ later
  pub time : r.start + 100 * 1000000 ≤ late.now

module _ {RestClient Reply : Type 0} (refresh : Stateful RestClient Reply) {D : Type 0}
    (J : JsonLib D) (F : FloatLib D) (write_fails : Oracle J.Json)
    (order : List (String × Grouping)) where
  open J use {Json}

  -- The round is the last in time, or the rounds that follow end.
  abbrev Ends : Rest refresh J F write_fails order → Option ℕ → ℕ → Type 0
  Ends rest deadline after =
      (is_expired deadline after ≡ true) ⊎ ((s : Td365 RestClient Json) → HasEnded (rest s).0)

  on_event-HasEnded :
      (rest : Rest refresh J F write_fails order) (deadline : Option ℕ) (after : ℕ) (e : Event D)
      (s : Td365 RestClient Json)
      → Ends rest deadline after
      → HasEnded (on_event refresh J F write_fails order rest deadline after e s).0
  unfolding on_event HasEnded
  on_event-HasEnded rest deadline after timeout_event s (inl h) = rw h tt
  on_event-HasEnded rest deadline after timeout_event s (inr h) =
      elim (Bool-cases (is_expired deadline after)) [
        | inl late ↦ rw late tt
        | inr early ↦ rw early (h s)
      ]
  on_event-HasEnded rest deadline after (tick_event t) s h = tt
  on_event-HasEnded rest deadline after (account_summary_event t) s h = tt
  on_event-HasEnded rest deadline after (account_details_event t) s h = tt
  on_event-HasEnded rest deadline after (trade_established_event t) s h = tt
  on_event-HasEnded rest deadline after (error_event t) s h = tt
  on_event-HasEnded rest deadline after connection_closed_event s h = tt

  on_outcome-HasEnded :
      (rest : Rest refresh J F write_fails order) (deadline : Option ℕ) (after : ℕ)
      (o : Outcome D × Client Json) (s : Td365 RestClient Json)
      → Ends rest deadline after
      → HasEnded o.0
      → HasEnded (on_outcome refresh J F write_fails order rest deadline after o s).0
  unfolding on_outcome HasEnded
  on_outcome-HasEnded rest deadline after (returned e, c) s h k =
      on_event-HasEnded rest deadline after e (record s { ws_client = c }) h
  on_outcome-HasEnded rest deadline after (threw e, c) s h k = tt
  on_outcome-HasEnded rest deadline after (waiting, c) s h k = k

  read-HasEnded :
      (r : Round) (c : Client Json)
      → IsTimely r
      → HasEnded (read_and_process_message J F write_fails order (some 100) r.start r.script c).0
  read-HasEnded r c t = rw (t.script) (
      read_and_process_message-HasEnded J F write_fails order 100 r.start t.earlier t.later t.late c
        t.time)

  on_session-HasEnded :
      (rest : Rest refresh J F write_fails order) (deadline : Option ℕ) (r : Round)
      (o : Result (Unit {0}) × Td365 RestClient Json)
      → Ends rest deadline r.after
      → IsTimely r
      → HasEnded (on_session refresh J F write_fails order rest deadline r o).0
  unfolding on_session HasEnded
  on_session-HasEnded rest deadline r (err e, s) h t = tt
  on_session-HasEnded rest deadline r (ok u, s) h t =
      on_outcome-HasEnded rest deadline r.after _ s h (read-HasEnded r s.ws_client t)

  wait_loop-HasEnded :
      (deadline : Option ℕ) (earlier later : List Round) (r : Round) (s : Td365 RestClient Json)
      → All IsTimely earlier
      → IsTimely r
      → is_expired deadline r.after ≡ true
      → HasEnded (wait_loop refresh J F write_fails order deadline (earlier ++ r ∷ later) s).0
  unfolding wait_loop
  wait_loop-HasEnded deadline [] later r s a t h =
      on_session-HasEnded (wait_loop refresh J F write_fails order deadline later) deadline r
        (update_session refresh r s) (inl h) t
  wait_loop-HasEnded deadline (q ∷ qs) later r s a t h =
      on_session-HasEnded (wait_loop refresh J F write_fails order deadline (qs ++ r ∷ later))
        deadline q (update_session refresh q s)
        (inr (λ s'. wait_loop-HasEnded deadline qs later r s' a.1 t h)) a.0

  -- With a limit in milliseconds, wait has returned or thrown with a round whose read ends at or
  -- after the limit, if the script of each round up to it goes on to the limit of its read.
  pub wait-HasEnded :
      (ms start : ℕ) (earlier later : List Round) (r : Round) (s : Td365 RestClient Json)
      → All IsTimely earlier
      → IsTimely r
      → start + ms * 1000000 ≤ r.after
      → HasEnded (wait refresh J F write_fails order (some ms) start (earlier ++ r ∷ later) s).0
  unfolding wait deadline_of is_expired
  wait-HasEnded ms start earlier later r s a t h =
      wait_loop-HasEnded (some (start + ms * 1000000)) earlier later r s a t (ground arith)
