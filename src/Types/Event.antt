-- ===== src/Types/Event.antt =====
-- include/td365/types.h: the events that a client waits for.
use libtd.Base.{Error}
use libtd.Types.Tick.{Tick}
use libtd.Types.Account.{AccountSummary, AccountDetails}
use libtd.Types.Trade.{TradeDetails}

-- The error event keeps the kind of the error code that the socket gave.
pub data Event (D : Type 0) : Type 0 where
  tick_event : Tick D → Event D
  account_summary_event : AccountSummary D → Event D
  account_details_event : AccountDetails D → Event D
  trade_established_event : TradeDetails D → Event D
  error_event : Error → Event D
  connection_closed_event timeout_event : Event D
