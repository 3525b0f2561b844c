-- ===== src/Authenticator/Login.antt =====
-- `login` and the two functions `authenticate`, over the interface of the HTTP client.
use libtd.Base.{if◌then◌else◌, Option, some, [], ◌∷◌, ◌++◌, ◌≡◌, ok, verify}
use libtd.Base.Int.{ℤ, leb_ℤ}
use libtd.Base.Stateful.{Stateful, ◌>>=◌, ◌>>◌, give, throwing, reading, modify}
use libtd.Text.{Bytes, codes}
use libtd.Json.{JsonLib}
use libtd.HttpClient.Boost.{BoostLib}
use libtd.HttpClient.Requests.{application_json_headers}
use libtd.HttpClient.Interface.{HttpLib, apart}
use libtd.RestApi.Calls.{is_success}
use libtd.Authenticator.Token.{AuthToken, load, save, granted}
use libtd.Authenticator.Accounts.{
  AccountType, oneclick, demo, portal_site_host, oauth_token_host, demo_url, site_host, api_host,
  sock_host, account_type, link_of, parse_body, read_account, read_url,
}

-- The clock and the file auth_token.json. What is written to the file is read back.
pub record Desk (World : Type 0) : Type 0 where
  pub now : World → ℤ
  pub token_file : World → Option Bytes
  pub write_token : Bytes → World → World
  pub token_file-write : (text : Bytes) (w : World) → token_file (write_token text w) ≡ some text

pub record WebDetail (Url : Type 0) : Type 0 where
  pub platform_url : Url
  pub account_type : AccountType
  pub site_host : Url
  pub api_host : Url
  pub sock_host : Url

module _ (B : BoostLib) (H : HttpLib B) (K : Desk (H.World)) {D : Type 0} (J : JsonLib D) where
  open H use {Client, World}

  unfoldable pub login_body : Bytes → Bytes → J.Json
  login_body username password = J.object (
      ("realm", J.of_string (codes "Username-Password-Authentication"))
      ∷ ("client_id", J.of_string (codes "eeXrVwSMXPZ4pJpwStuNyiUa7XxGZRX9"))
      ∷ ("scope", J.of_string (codes "openid"))
      ∷ ("grant_type", J.of_string (codes "http://auth0.com/oauth/grant-type/password-realm"))
      ∷ ("username", J.of_string username)
      ∷ ("password", J.of_string password)
      ∷ [])

  unfoldable pub login : Bytes → Bytes → Stateful World AuthToken
  unfolding login_body apart is_success parse_body granted
  login username password = do
    url ← throwing (B.parse_url oauth_token_host)
    response ← apart B H url (
        H.post (codes "/oauth/token") (some (J.dump (login_body username password)))
          (some application_json_headers))
    throwing (verify (is_success response.status))
    j ← throwing (parse_body J B response)
    now ← reading K.now
    throwing (granted J now j)

  unfoldable pub save_token : AuthToken → Stateful World (Unit {0})
  unfolding save
  save_token token = modify (K.write_token (save J token))

  unfoldable pub renew : Bytes → Bytes → Stateful World AuthToken
  unfolding login save_token
  renew username password = do token ← login username password; save_token token; give token

  -- The token in hand, unless it has expired.
  unfoldable pub fresh_token : Bytes → Bytes → AuthToken → ℤ → Stateful World AuthToken
  unfolding renew
  fresh_token username password token now w =
      let renewed = renew username password w in
      if leb_ℤ now token.expiry_time then (ok token, w) else renewed

  unfoldable pub current_token : Bytes → Bytes → Stateful World AuthToken
  unfolding load fresh_token
  current_token username password = do
    file ← reading K.token_file
    token ← throwing (load J file)
    now ← reading K.now
    fresh_token username password token now

  unfoldable pub bear : AuthToken → Stateful (Client × World) (Unit {0})
  bear token =
      modify (λ s.
        (H.emplace (codes "Authorization") (codes "Bearer " ++ token.access_token) (s.0), s.1))

  unfoldable pub select_account : Bytes → Stateful (Client × World) (J.Json)
  unfolding is_success read_account
  select_account account_id = do
    response ← H.get (codes "/TD365/user/accounts/")
    throwing (verify (is_success response.status))
    throwing (read_account J B account_id response)

  unfoldable pub fetch_platform_url : Bytes → Stateful (Client × World) (B.Url)
  unfolding is_success read_url
  fetch_platform_url target = do
    response ← H.get target
    throwing (verify (is_success response.status))
    throwing (read_url J B response)

  -- The last lines of `authenticate`.
  unfoldable pub detail_of : AccountType → B.Url → Stateful (Client × World) (WebDetail (B.Url))
  unfolding site_host api_host sock_host
  detail_of type platform = do
    site ← throwing (B.parse_url (site_host type))
    api ← throwing (B.parse_url (api_host type))
    sock ← throwing (B.parse_url (sock_host type))
    give (record {
      platform_url = platform;
      account_type = type;
      site_host = site;
      api_host = api;
      sock_host = sock;
    })

  -- What the client of the portal is asked for with a token.
  unfoldable pub visit_portal : AuthToken → Bytes → Stateful (Client × World) (WebDetail (B.Url))
  unfolding bear select_account account_type link_of fetch_platform_url detail_of
  visit_portal token account_id = do
    bear token
    account ← select_account account_id
    type ← throwing (account_type J account)
    link ← throwing (link_of J account)
    platform ← fetch_platform_url link
    detail_of type platform

  -- `authenticate` from the token on.
  unfoldable pub enter_portal : Bytes → AuthToken → Stateful World (WebDetail (B.Url))
  unfolding visit_portal apart
  enter_portal account_id token = do
    url ← throwing (B.parse_url portal_site_host)
    apart B H url (visit_portal token account_id)

  unfoldable pub authenticate : Bytes → Bytes → Bytes → Stateful World (WebDetail (B.Url))
  unfolding current_token enter_portal
  authenticate username password account_id = do
    token ← current_token username password
    enter_portal account_id token

  -- `authenticate()`, for the account that anyone may open.
  unfoldable pub authenticate_oneclick : Stateful World (WebDetail (B.Url))
  unfolding site_host api_host sock_host
  authenticate_oneclick = do
    platform ← throwing (B.parse_url demo_url)
    site ← throwing (B.parse_url (site_host demo))
    api ← throwing (B.parse_url (api_host demo))
    sock ← throwing (B.parse_url (sock_host demo))
    give (record {
      platform_url = platform;
      account_type = oneclick;
      site_host = site;
      api_host = api;
      sock_host = sock;
    })
