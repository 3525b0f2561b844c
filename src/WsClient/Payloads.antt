-- ===== src/WsClient/Payloads.antt =====
-- The handlers of the messages that carry data. They leave the client as it is.
use libtd.Base.{
  not, ◌&&◌, String, Option, none, some, List, [], ◌∷◌, if◌then◌else◌, Result, ok, err, ◌>>=◌, ◌>>◌,
  guard, runtime_error,
}
use libtd.Base.Int.{ℤ, pos, eqb_ℤ}
use libtd.Text.{Bytes}
use libtd.Json.{JsonLib, int_at, read_array}
use libtd.Types.Tick.{Grouping}
use libtd.Types.Account.{AccountSummary}
use libtd.Types.Event.{
  Event, tick_event, account_summary_event, account_details_event, trade_established_event,
}
use libtd.Codec.AccountSummary
use libtd.Codec.AccountDetails
use libtd.Codec.TradeDetails
use libtd.Parsing.Numbers.{FloatLib}
use libtd.Parsing.GroupingNames.{string_to_price_type}
use libtd.Parsing.TdTick.{parse_td_tick}

-- The value-initialised summary of `account_summary_event{}`.
unfoldable pub empty_summary : {D : Type 0} → FloatLib D → AccountSummary D
empty_summary F = record {
  account_id = [];
  platform_id = pos 0;
  account_valuation = F.zero;
  funded_percentage_string = [];
  client_id = pos 0;
  trading_account_type = [];
  margin = F.zero;
  open_pnl_quote = F.zero;
  account_balance = F.zero;
  credit = F.zero;
  waived_margin = F.zero;
  resources = F.zero;
  change_imr = F.zero;
  variation_margin_required = F.zero;
}

-- `grouping_map` is an unordered map: `order` is the order in which it is walked. `wall` is the
-- reading of the system clock.
module _ {D : Type 0} (J : JsonLib D) (F : FloatLib D) where
  open J use {Json, index, subscript, find, is_array, is_empty, get_int, get_bool, get_string}

  -- The loop over the prices returns in its first round.
  unfoldable pub first_of : List Bytes → Grouping → ℤ → Result (Event D) → Result (Event D)
  first_of [] group wall rest = rest
  first_of (price ∷ prices) group wall rest = do
    t ← parse_td_tick F price group wall
    ok (tick_event t)

  -- One round of the loop over the groups, with what the rounds after it give.
  unfoldable pub from_group : Option Json → Grouping → ℤ → Result (Event D) → Result (Event D)
  unfolding first_of
  from_group none group wall rest = rest
  from_group (some it) group wall rest =
      if is_array it && not (is_empty it)
      then (do prices ← read_array J get_string it; first_of prices group wall rest)
      else rest

  unfoldable pub first_price : List (String × Grouping) → Json → ℤ → Result (Event D)
  unfolding from_group
  first_price [] payload wall = err runtime_error
  first_price ((key, group) ∷ groups) payload wall =
      from_group (find payload key) group wall (first_price groups payload wall)

  unfoldable pub process_price_data : List (String × Grouping) → Json → ℤ → Result (Event D)
  process_price_data order msg wall = do payload ← index msg "d"; first_price order payload wall

  -- With a list of prices, the event of the first.
  current_price : List Bytes → Grouping → ℤ → Result (Option (Event D))
  current_price [] g wall = ok none
  current_price (price ∷ prices) g wall = do
    t ← parse_td_tick F price g wall
    ok (some (tick_event t))

  unfoldable pub process_subscribe_response : Json → ℤ → Result (Option (Event D))
  unfolding current_price
  process_subscribe_response msg wall = do
    d ← index msg "d"
    has_error ← subscript d "HasError" >>= get_bool
    guard (not has_error) runtime_error
    prices ← subscript d "Current" >>= read_array J get_string
    g ← subscript d "PriceGrouping" >>= get_string >>= string_to_price_type
    current_price prices g wall

  unfoldable pub process_account_summary : Json → Result (Event D)
  process_account_summary msg = do
    d ← J.at msg "d"
    platform_id ← int_at J d "PlatformID"
    if eqb_ℤ platform_id (pos 0) then ok (account_summary_event (empty_summary F)) else (do
      summary ← index msg "d" >>= AccountSummary.from_json J
      ok (account_summary_event summary))

  unfoldable pub process_account_details : Json → Result (Event D)
  process_account_details msg = do
    details ← index msg "d" >>= AccountDetails.from_json J
    ok (account_details_event details)

  unfoldable pub process_trade_established : Json → Result (Event D)
  process_trade_established msg = do
    details ← index msg "d" >>= TradeDetails.from_json J
    ok (trade_established_event details)
