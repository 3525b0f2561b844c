-- ===== src/Authenticator/Accounts.antt =====
-- The account that is asked for, and the platform that it leads to.
use libtd.Base.{
  Bool, true, false, if◌then◌else◌, List, [], ◌∷◌, Result, ok, err, ◌>>=◌, runtime_error,
}
use libtd.Text.{Bytes, codes}
use libtd.Json.{JsonLib}
use libtd.HttpClient.Boost.{BoostLib, Response}
use libtd.HttpClient.Client.{get_http_body}

-- `account_type_t`
pub data AccountType : Type 0 where
  demo prod oneclick : AccountType

unfoldable pub type_of : Bool → AccountType
type_of true = demo
type_of false = prod

abbrev pub portal_site_host : Bytes
portal_site_host = codes "https://portal-api.tradenation.com"

abbrev pub oauth_token_host : Bytes
oauth_token_host = codes "https://td365.eu.auth0.com"

abbrev pub demo_url : Bytes
demo_url = codes "https://demo.tradedirect365.com/finlogin/OneClickDemo.aspx?aid=1026"

-- Anything that is not a demo account is served by the hosts of production.
unfoldable pub site_host : AccountType → Bytes
site_host demo = codes "https://demo.tradedirect365.com.au"
site_host _ = codes "https://traders.td365.com"

unfoldable pub api_host : AccountType → Bytes
api_host demo = codes "https://demo-api.finsa.com.au"
api_host _ = codes "https://prod-api.finsa.com.au"

unfoldable pub sock_host : AccountType → Bytes
sock_host demo = codes "https://demo-api.finsa.com.au"
sock_host _ = codes "https://prod-api.finsa.com.au"

module _ {D : Type 0} (J : JsonLib D) where
  -- The loop of `select_account`.
  unfoldable pub find_account : Bytes → List J.Json → Result J.Json
  find_account account_id [] = err runtime_error
  find_account account_id (a ∷ rest_of) =
      let rest = find_account account_id rest_of in
      do account ← J.index a "account"; if J.equals_string account account_id then ok a else rest

  unfoldable pub account_in : Bytes → J.Json → Result J.Json
  unfolding find_account
  account_in account_id j = do
    results ← J.subscript j "results"
    find_account account_id (J.elements results)

  unfoldable pub account_type : J.Json → Result AccountType
  unfolding type_of
  account_type account = do
    type ← J.subscript account "accountType"
    ok (type_of (J.equals_string type (codes "DEMO")))

  unfoldable pub link_of : J.Json → Result Bytes
  link_of account = do
    button ← J.subscript account "button"
    link ← J.subscript button "linkTo"
    J.get_string link

  module _ (B : BoostLib) where
    unfoldable pub parse_body : Response (B.Fields) → Result J.Json
    unfolding get_http_body
    parse_body response = do text ← get_http_body B response; J.parse text

    unfoldable pub read_account : Bytes → Response (B.Fields) → Result J.Json
    unfolding parse_body account_in
    read_account account_id response = do j ← parse_body response; account_in account_id j

    unfoldable pub read_url : Response (B.Fields) → Result (B.Url)
    unfolding parse_body
    read_url response = do
      j ← parse_body response
      url ← J.subscript j "url"
      loginagent_url ← J.get_string url
      B.parse_url loginagent_url
