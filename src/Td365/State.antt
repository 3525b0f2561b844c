-- ===== src/Td365/State.antt =====
-- include/td365/td365.h: the object, which holds a rest_api, a ws_client and the time at which the
-- session was refreshed last.
use libtd.Base.{ℕ}
use libtd.Base.Stateful.{Stateful, joined}
use libtd.WsClient.State.{Client, initial}

-- The time is that of the steady clock, in nanoseconds; it starts at the epoch of that clock.
pub record Td365 (Rest Json : Type 0) : Type 0 where
  pub rest_client : Rest
  pub ws_client : Client Json
  pub last_session_update : ℕ

module _ {Rest Json : Type 0} where
  -- What the default constructor makes, for the rest_api that it makes.
  unfoldable pub create : Rest → Td365 Rest Json
  create rest = record { rest_client = rest; ws_client = initial Json; last_session_update = 0 }

  unfoldable pub on_rest : {Value : Type 0} → Stateful Rest Value → Stateful (Td365 Rest Json) Value
  on_rest call s = joined (λ r. record s { rest_client = r }) (call (s.rest_client))

  unfoldable pub on_ws :
      {Value : Type 0} → Stateful (Client Json) Value → Stateful (Td365 Rest Json) Value
  on_ws call s = joined (λ c. record s { ws_client = c }) (call (s.ws_client))
