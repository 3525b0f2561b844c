-- ===== src/WsClient/Delivery.antt =====
-- The first event behind messages that give none.
use libtd.Base.{ℕ, false, String, Option, none, some, List, [], ◌∷◌, ◌++◌, ◌≡◌, refl, ◌∙◌, ok}
use libtd.Text.{Bytes}
use libtd.Json.{JsonLib}
use libtd.Types.Tick.{Grouping}
use libtd.Types.Event.{Event}
use libtd.Parsing.Numbers.{FloatLib}
use libtd.WsClient.State.{Client, Oracle}
use libtd.WsClient.Connect.{received}
use libtd.WsClient.Loop.{
  Turn, returned, is_expired, deadline_of, handle, after, turn, read_loop, read_and_process_message,
}

module _ {D : Type 0} (J : JsonLib D) (F : FloatLib D) (write_fails : Oracle J.Json)
    (order : List (String × Grouping)) where
  open J use {Json}

  -- Turns before the deadline whose messages are handled without an event, from one state of the
  -- client to another.
  pub data Quiet (deadline : Option ℕ) : List Turn → Client Json → Client Json → Type 0 where
    none_yet : {c : Client Json} → Quiet deadline [] c c
    passed :
        {t : Turn} {ts : List Turn} {buf : Bytes} {c d e : Client Json}
        → is_expired deadline t.now ≡ false
        → t.read ≡ received buf
        → handle J F write_fails order buf t.wall c ≡ (ok none, d)
        → Quiet deadline ts d e
        → Quiet deadline (t ∷ ts) c e

  read_loop-Quiet :
      (deadline : Option ℕ) (later : List Turn) {ts : List Turn} {c d : Client Json}
      → Quiet deadline ts c d
      → read_loop J F write_fails order deadline (ts ++ later) c
        ≡ read_loop J F write_fails order deadline later d
  unfolding read_loop turn after
  read_loop-Quiet deadline later none_yet = refl
  read_loop-Quiet deadline later (passed p q h rest) =
      rw (p, q, h) (read_loop-Quiet deadline later rest)

  -- read_and_process_message passes over the messages that give no event and returns the event of
  -- the first that gives one, with the state that its handler leaves, if each comes before the
  -- deadline.
  pub read_and_process_message-Quiet :
      (limit : Option ℕ) (start : ℕ) (quiet later : List Turn) (t : Turn) (buf : Bytes)
      (e : Event D) (c d c' : Client Json)
      → Quiet (deadline_of start limit) quiet c d
      → is_expired (deadline_of start limit) t.now ≡ false
      → t.read ≡ received buf
      → handle J F write_fails order buf t.wall d ≡ (ok (some e), c')
      → read_and_process_message J F write_fails order limit start (quiet ++ t ∷ later) c
        ≡ (returned e, c')
  unfolding read_and_process_message read_loop turn after
  read_and_process_message-Quiet limit start quiet later t buf e c d c' qs p q h =
      read_loop-Quiet (deadline_of start limit) (t ∷ later) qs ∙ rw (p, q, h) refl
