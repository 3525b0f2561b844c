-- ===== src/Ws/Pointers.antt =====
-- No null pointer is followed behind a `connect` that returns.
use libtd.Base.{ℕ, Bool, true, false, Option, none, some, List, [], ◌∷◌, ◌≡◌}
use libtd.Base.Stateful.{Stateful}
use libtd.Text.{Bytes}
use libtd.HttpClient.Boost.{BoostLib, Network}
use libtd.Ws.Streams.{Streams}
use libtd.Ws.Socket.{WsState, pointer, close, send, read_message}

-- The methods that follow the pointer.
pub data Call : Type 0 where
  closes : Call
  sends : Bytes → Call
  reads : Option ℕ → Call

module _ (B : BoostLib) (N : Network B) (S : Streams B N) where
  open S use {Stream}

  points : Option Stream → Bool
  points none = false
  points (some stream) = true

  -- The pointer that the next call follows leads to a stream.
  unfoldable pub HasStream : WsState B N S → Type 0
  unfolding points pointer
  HasStream s = points (pointer (s.0.using_ssl) (s.0)) ≡ true

  unfoldable pub after_call : Call → WsState B N S → WsState B N S
  after_call closes s = (close B N S s).1
  after_call (sends message) s = (send B N S message s).1
  after_call (reads timeout) s = (read_message B N S timeout s).1

  unfoldable pub after_calls : List Call → WsState B N S → WsState B N S
  unfolding after_call
  after_calls [] s = s
  after_calls (c ∷ cs) s = after_calls cs (after_call c s)
