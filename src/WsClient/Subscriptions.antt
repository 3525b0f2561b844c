-- ===== src/WsClient/Subscriptions.antt =====
-- `subscribe` and `unsubscribe`.
use libtd.Base.{Bool, false, ◌||◌, List, [], ◌∷◌, ◌++◌, if◌then◌else◌}
use libtd.Base.Int.{ℤ, eqb_ℤ}
use libtd.WsClient.State.{Request, Client, Action, Oracle, pure, send}
use libtd.WsClient.State

-- std::ranges::find, compared with the end.
unfoldable pub contains : List ℤ → ℤ → Bool
contains [] q = false
contains (x ∷ xs) q = eqb_ℤ x q || contains xs q

-- `erase` at the first position that holds the value.
unfoldable pub erase : List ℤ → ℤ → List ℤ
erase [] q = []
erase (x ∷ xs) q = if eqb_ℤ x q then xs else x ∷ erase xs q

module _ {Json : Type 0} (write_fails : Oracle Json) where
  -- The quote is noted before the request is sent.
  unfoldable pub subscribe : ℤ → Action Json Unit
  unfolding contains send pure
  subscribe quote_id c =
      if contains c.subscribed quote_id
      then pure tt c
      else send write_fails (State.subscribe quote_id)
          (record c { subscribed = c.subscribed ++ quote_id ∷ [] })

  unfoldable pub unsubscribe : ℤ → Action Json Unit
  unfolding contains erase send pure
  unsubscribe quote_id c =
      if contains c.subscribed quote_id
      then send write_fails (State.unsubscribe quote_id)
          (record c { subscribed = erase c.subscribed quote_id })
      else pure tt c
