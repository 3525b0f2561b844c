-- ===== src/WsClient/Deadline.antt =====
-- The time limit of `read_and_process_message`.
use libtd.Base.{
  ℕ, ◌+◌, ◌*◌, ◌≤◌, true, String, Option, none, some, List, [], ◌∷◌, ◌++◌, ◌≡◌, arith, Bool-cases,
  inl, inr, Result, ok, err,
}
use libtd.Base.Int.{ℤ}
use libtd.Json.{JsonLib}
use libtd.Types.Tick.{Grouping}
use libtd.Types.Event.{Event}
use libtd.Parsing.Numbers.{FloatLib}
use libtd.WsClient.State.{Client, Oracle}
use libtd.WsClient.Connect.{Read, failed, received}
use libtd.WsClient.Loop.{
  Turn, Outcome, returned, threw, waiting, is_expired, deadline_of, handle, after, turn, read_loop,
  read_and_process_message,
}

-- The loop has not ended by running out of turns.
unfoldable pub HasEnded : {D : Type 0} → Outcome D → Type 0
HasEnded (returned e) = Unit
HasEnded (threw e) = Unit
HasEnded waiting = ⊥

module _ {D : Type 0} (J : JsonLib D) (F : FloatLib D) (write_fails : Oracle J.Json)
    (order : List (String × Grouping)) where
  open J use {Json}

  after-HasEnded :
      (loop : Client Json → Outcome D × Client Json) (r : Result (Option (Event D)) × Client Json)
      → ((c : Client Json) → HasEnded (loop c).0)
      → HasEnded (after J F write_fails order loop r).0
  unfolding after HasEnded
  after-HasEnded loop (ok none, c) h = h c
  after-HasEnded loop (ok (some e), c) h = tt
  after-HasEnded loop (err e, c) h = tt

  turn-HasEnded :
      (loop : Client Json → Outcome D × Client Json) (r : Read) (wall : ℤ) (c : Client Json)
      → ((c : Client Json) → HasEnded (loop c).0)
      → HasEnded (turn J F write_fails order loop r wall c).0
  unfolding turn HasEnded
  turn-HasEnded loop (failed ec) wall c h = tt
  turn-HasEnded loop (received buf) wall c h =
      after-HasEnded loop (handle J F write_fails order buf wall c) h

  read_loop-HasEnded :
      (deadline : Option ℕ) (earlier later : List Turn) (t : Turn) (c : Client Json)
      → is_expired deadline t.now ≡ true
      → HasEnded (read_loop J F write_fails order deadline (earlier ++ t ∷ later) c).0
  unfolding read_loop HasEnded
  read_loop-HasEnded deadline [] later t c h = rw (h) tt
  read_loop-HasEnded deadline (u ∷ us) later t c h = elim (Bool-cases (is_expired deadline u.now)) [
    | inl a ↦ rw (a) tt
    | inr b ↦ rw (b) (
        turn-HasEnded (read_loop J F write_fails order deadline (us ++ t ∷ later)) u.read u.wall c
          (λ c'. read_loop-HasEnded deadline us later t c' h))
  ]

  -- With a limit in milliseconds, read_and_process_message has returned or thrown once a turn
  -- starts at or after the limit, however many messages before it gave no event.
  pub read_and_process_message-HasEnded :
      (ms start : ℕ) (earlier later : List Turn) (t : Turn) (c : Client Json)
      → start + ms * 1000000 ≤ t.now
      → HasEnded
          (read_and_process_message J F write_fails order
            (some ms)
            start
            (earlier ++ t ∷ later)
            c).0
  unfolding read_and_process_message deadline_of is_expired
  read_and_process_message-HasEnded ms start earlier later t c h =
      read_loop-HasEnded (some (start + ms * 1000000)) earlier later t c (ground arith)
