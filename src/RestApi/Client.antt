-- ===== src/RestApi/Client.antt =====
-- `open_client`: redirects are followed up to the page of the account. The HTTP client appears as an
-- interface, `HttpLib`.
use libtd.Base.{
  ℕ, zero, suc, Option, none, some, ◌++◌, err, or_throw, runtime_error, out_of_range, undefined,
}
use libtd.Base.Stateful.{Stateful, ◌>>=◌, ◌>>◌, give, throwing, modify, joined}
use libtd.Text.{Bytes, codes}
use libtd.HttpClient.Boost.{BoostLib, Response, Status, success, found, other}
use libtd.HttpClient.Interface.{HttpLib}
use libtd.RestApi.Urls.{replace_spaces}
use libtd.RestApi.Pages.{read_page}

-- `client` is null up to `connect`.
pub record RestApi (Client : Type 0) : Type 0 where
  pub client : Option Client
  pub account_id : Bytes
  pub get_market_details_url : Bytes

abbrev pub max_depth : ℕ
max_depth = 4

module _ (B : BoostLib) (H : HttpLib B) where
  open H use {Client, World}

  abbrev pub RestState : Type 0
  RestState = RestApi Client × World

  abbrev pub with_client : RestApi Client → Client × World → RestState
  with_client r s = (record r { client = some (s.0) }, s.1)

  unfoldable pub on_pointer :
      {Value : Type 0} → Stateful (Client × World) Value → Option Client → Stateful RestState Value
  on_pointer call none s = (err undefined, s)
  on_pointer call (some c) (r, w) = joined (with_client r) (call (c, w))

  -- A call of the client that the pointer leads to.
  unfoldable pub on_client :
      {Value : Type 0} → Stateful (Client × World) Value → Stateful RestState Value
  unfolding on_pointer
  on_client call s = on_pointer call (s.0.client) s

  unfoldable pub on_world : {Value : Type 0} → Stateful World Value → Stateful RestState Value
  on_world call (r, w) = joined (λ w'. (r, w')) (call w)

  abbrev pub details_url : Bytes → Bytes
  details_url account = codes "/UTSAPI.asmx/GetMarketDetails?AccountID=" ++ account

  abbrev pub set_account : Bytes → RestState → RestState
  set_account account (r, w) =
      (record r { account_id = account; get_market_details_url = details_url account }, w)

  -- What the page says is kept once all of it could be read.
  unfoldable pub finish : Bytes × Bytes × Bytes → Stateful RestState (Bytes × Bytes)
  finish (ots, login_id, account) = do modify (set_account account); give (ots, login_id)

  -- What is left of the loop for a new target.
  abbrev Rest : Type 0
  Rest = Bytes → Stateful RestState (Bytes × Bytes)

  unfoldable pub answer :
      Rest → Bytes → Status → Response (B.Fields) → Stateful RestState (Bytes × Bytes)
  unfolding finish
  answer rest t success response = do page ← throwing (read_page B t response); finish page
  answer rest t found response = do
    location ← throwing (or_throw (B.first response.fields (codes "Location")) out_of_range)
    rest location
  answer rest t other response = throwing (err runtime_error)

  unfoldable pub round : Rest → Bytes → Stateful RestState (Bytes × Bytes)
  unfolding answer replace_spaces on_client
  round rest t = do
    u ← throwing (B.parse_url (replace_spaces t))
    response ← on_client (H.get (B.encoded_target u))
    answer rest t response.status response

  -- The loop, by the rounds that are left.
  unfoldable pub open_loop : ℕ → Bytes → Stateful RestState (Bytes × Bytes)
  unfolding round
  open_loop zero t = throwing (err runtime_error)
  open_loop (suc left) t = round (open_loop left) t

  unfoldable pub open_client : Bytes → Stateful RestState (Bytes × Bytes)
  unfolding open_loop
  open_client target = open_loop (suc max_depth) target
