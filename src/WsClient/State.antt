-- ===== src/WsClient/State.antt =====
-- The state of a `ws_client`, and the actions on it. The socket belongs to Boost.Beast: it appears as
-- what was written to it, and as an oracle that says which writes fail.
use libtd.Base.{
  Bool, false, List, [], ◌∷◌, ◌++◌, if◌then◌else◌, Result, ok, err, undefined, system_error,
}
use libtd.Base.Int.{ℤ}
use libtd.Base.Stateful.{Stateful}
use libtd.Text.{Bytes}

-- What the client sends. The heartbeat repeats five values of the message that it answers.
pub data Request (Json : Type 0) : Type 0 where
  subscribe unsubscribe : ℤ → Request Json
  authentication : Bytes → Bytes → Request Json
  reconnect : Bytes → Request Json
  options : Request Json
  heartbeat : Json → Json → Json → Json → Json → Request Json

-- `connected` says whether `ws_` points to a socket, and `sent` is what was written to it.
pub record Client (Json : Type 0) : Type 0 where
  pub connected : Bool
  pub sent : List (Request Json)
  pub login_id : Bytes
  pub token : Bytes
  pub connection_id : Bytes
  pub subscribed : List ℤ
  pub stored_url : Bytes

-- `ws_client()`.
abbrev pub initial : (Json : Type 0) → Client Json
initial Json = record {
  connected = false;
  sent = [];
  login_id = [];
  token = [];
  connection_id = [];
  subscribed = [];
  stored_url = [];
}

-- A method: what it gives or throws, and the state that it leaves in either case.
abbrev pub Action : Type 0 → Type 0 → Type 0
Action Json A = Stateful (Client Json) A

module _ {Json A : Type 0} where
  unfoldable pub pure : A → Action Json A
  pure a c = (ok a, c)

  -- A computation that does not touch the client.
  unfoldable pub lift : Result A → Action Json A
  lift r c = (r, c)

  -- An action that looks at the fields of the client.
  unfoldable pub with_client : (Client Json → Action Json A) → Action Json A
  with_client f c = f c c

module _ {Json A B : Type 0} where
  unfoldable pub continue : Result A × Client Json → (A → Action Json B) → Result B × Client Json
  continue (ok a, c) f = f a c
  continue (err e, c) f = (err e, c)

  infixl 5 ◌>>=◌ ◌>>◌
  -- Opening this opens the actions above too.
  unfoldable pub ◌>>=◌ : Action Json A → (A → Action Json B) → Action Json B
  unfolding continue pure lift with_client
  ◌>>=◌ m f c = continue (m c) f

  abbrev pub ◌>>◌ : Action Json A → Action Json B → Action Json B
  m >> k = m >>= λ _. k

-- Which write fails, with an exception, given what was written before.
abbrev pub Oracle : Type 0 → Type 0
Oracle Json = List (Request Json) → Request Json → Bool

-- `send`. With no socket, `ws_` is a null pointer.
unfoldable pub send : {Json : Type 0} → Oracle Json → Request Json → Action Json Unit
send write_fails r c =
    if c.connected
    then (if write_fails c.sent r
        then (err system_error, c)
        else (ok tt, record c { sent = c.sent ++ r ∷ [] }))
    else (err undefined, c)

-- `connection_id_ = id`.
unfoldable pub store_connection_id : {Json : Type 0} → Bytes → Action Json Unit
store_connection_id id c = (ok tt, record c { connection_id = id })
