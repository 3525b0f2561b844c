-- ===== src/Authenticator/Caching.antt =====
-- When `authenticate` logs in, and when it takes the token of the file.
use libtd.Base.{Option, some, true, false, ap, ◌≡◌, refl, ◌∙◌, Result, ok}
use libtd.Base.Int.{leb_ℤ, IsInt32}
use libtd.Base.Stateful.{Stateful, ◌>>=◌, ◌>>◌, Keeps, bind-Keeps, then-Keeps, throwing}
use libtd.Text.{Bytes}
use libtd.Json.{JsonLib}
use libtd.Parsing.CandleLine.{to_seconds}
use libtd.HttpClient.Boost.{BoostLib}
use libtd.HttpClient.Interface.{HttpLib, apart}
use libtd.Authenticator.Accounts.{AccountType}
use libtd.Authenticator.Token.{AuthToken, load, save, token_json}
use libtd.Authenticator.TokenFile.{in_seconds, load-save_token}
use libtd.Authenticator.Login.{
  Desk, login, renew, bear, select_account, fetch_platform_url, detail_of, visit_portal, save_token,
  fresh_token, current_token, enter_portal, authenticate,
}

module _ (B : BoostLib) (H : HttpLib B) (K : Desk (H.World)) {D : Type 0} (J : JsonLib D) where
  open H use {Client, World}

  -- The token of a login is taken from the file, without its fraction of a second, by a later
  -- call that finds the file as it was left and comes no later than the whole second of its
  -- expiry, if the seconds fit an int and the JSON library parses what it prints.
  pub renew-current_token :
      (username password : Bytes) (token : AuthToken) (w w' later : World)
      → login B H K J username password w ≡ (ok token, w')
      → IsInt32 (to_seconds token.expiry_time)
      → J.parse (J.pretty (token_json J token)) ≡ ok (token_json J token)
      → K.token_file later ≡ K.token_file ((renew B H K J username password w).1)
      → leb_ℤ (K.now later) ((in_seconds token).expiry_time) ≡ true
      → current_token B H K J username password later ≡ (ok (in_seconds token), later)
  unfolding renew save_token current_token fresh_token ◌>>=◌ ◌>>◌
  renew-current_token username password token w w' later l i p f h =
      rw (f, l, K.token_file-write (save J token) w', load-save_token J token i p, h) refl

  -- Calls of the HTTP client leave the file of the token alone.
  pub record LeavesFile : Type 0 where
    pub file-create : (url : B.Url) (w : World) → K.token_file ((H.create url w).1) ≡ K.token_file w
    pub file-get :
        (target : Bytes) (s : Client × World)
        → K.token_file ((H.get target s).1.1) ≡ K.token_file (s.1)

  module _ (leaves : LeavesFile) (file : Option Bytes) where
    abbrev Holds : Client × World → Type 0
    Holds s = K.token_file (s.1) ≡ file

    quiet-Keeps : {V : Type 0} (r : Result V) → Keeps Holds (throwing r)
    unfolding Keeps
    quiet-Keeps r s h = h

    bear-Keeps : (token : AuthToken) → Keeps Holds (bear B H K J token)
    unfolding Keeps bear
    bear-Keeps token s h = h

    get-Keeps : (target : Bytes) → Keeps Holds (H.get target)
    unfolding Keeps
    get-Keeps target s h = leaves.file-get target s ∙ h

    account-Keeps : (account_id : Bytes) → Keeps Holds (select_account B H K J account_id)
    unfolding select_account
    account-Keeps account_id =
        bind-Keeps Holds _ _ (get-Keeps _)
          (λ response. then-Keeps Holds _ _ (quiet-Keeps _) (quiet-Keeps _))

    platform-Keeps : (target : Bytes) → Keeps Holds (fetch_platform_url B H K J target)
    unfolding fetch_platform_url
    platform-Keeps target =
        bind-Keeps Holds _ _ (get-Keeps target)
          (λ response. then-Keeps Holds _ _ (quiet-Keeps _) (quiet-Keeps _))

    detail-Keeps : (type : AccountType) (url : B.Url) → Keeps Holds (detail_of B H K J type url)
    unfolding detail_of
    detail-Keeps type url = bind-Keeps Holds _ _ (quiet-Keeps _) (λ site.
        bind-Keeps Holds _ _ (quiet-Keeps _)
          (λ api. bind-Keeps Holds _ _ (quiet-Keeps _) (λ sock. quiet-Keeps _)))

    visit-Keeps :
        (token : AuthToken) (account_id : Bytes)
        → Keeps Holds (visit_portal B H K J token account_id)
    unfolding visit_portal
    visit-Keeps token account_id = then-Keeps Holds _ _ (bear-Keeps token) (
        bind-Keeps Holds _ _ (account-Keeps account_id) (λ account.
          bind-Keeps Holds _ _ (quiet-Keeps _) (λ type.
            bind-Keeps Holds _ _ (quiet-Keeps _) (λ link.
              bind-Keeps Holds _ _ (platform-Keeps link)
                (λ platform. detail-Keeps type platform)))))

    HoldsFile : World → Type 0
    HoldsFile w = K.token_file w ≡ file

    parsed-Keeps : {V : Type 0} (r : Result V) → Keeps HoldsFile (throwing r)
    unfolding Keeps
    parsed-Keeps r w h = h

    apart-Keeps :
        {V : Type 0} (url : B.Url) (call : Stateful (Client × World) V)
        → Keeps Holds call
        → Keeps HoldsFile (apart B H url call)
    unfolding apart Keeps HoldsFile
    apart-Keeps url call keeps =
        bind-Keeps HoldsFile (H.create url) _ (λ w h. leaves.file-create url w ∙ h)
          (λ hc w h. keeps (hc, w) h)

    enter-Keeps :
        (account_id : Bytes) (token : AuthToken)
        → Keeps HoldsFile (enter_portal B H K J account_id token)
    unfolding enter_portal
    enter-Keeps account_id token =
        bind-Keeps HoldsFile _ _ (parsed-Keeps _)
          (λ url. apart-Keeps url _ (visit-Keeps token account_id))

  logged_in :
      (username password account_id : Bytes) (old token : AuthToken) (w w' : World)
      → load J (K.token_file w) ≡ ok old
      → leb_ℤ (K.now w) old.expiry_time ≡ false
      → login B H K J username password w ≡ (ok token, w')
      → authenticate B H K J username password account_id w
        ≡ enter_portal B H K J account_id token (K.write_token (save J token) w')
  unfolding authenticate current_token fresh_token renew save_token ◌>>=◌ ◌>>◌
  logged_in username password account_id old token w w' o e l = rw (o, e, l) refl

  entered :
      (username password account_id : Bytes) (token : AuthToken) (w : World)
      → load J (K.token_file w) ≡ ok token
      → leb_ℤ (K.now w) token.expiry_time ≡ true
      → authenticate B H K J username password account_id w
        ≡ enter_portal B H K J account_id token w
  unfolding authenticate current_token fresh_token ◌>>=◌
  entered username password account_id token w o h = rw (o, h) refl

  file_behind :
      (username password account_id : Bytes) (old token : AuthToken) (w w' : World)
      → LeavesFile
      → load J (K.token_file w) ≡ ok old
      → leb_ℤ (K.now w) old.expiry_time ≡ false
      → login B H K J username password w ≡ (ok token, w')
      → K.token_file ((authenticate B H K J username password account_id w).1) ≡ some (save J token)
  unfolding Keeps HoldsFile
  file_behind username password account_id old token w w' leaves o e l =
      ap (λ r. K.token_file (r.1)) (logged_in username password account_id old token w w' o e l)
      ∙ enter-Keeps leaves (some (save J token)) account_id token (K.write_token (save J token) w')
          (K.token_file-write (save J token) w')

  -- An authenticate that finds an expired token, and whose login gives a new one, leaves the new
  -- token in the file, without its fraction of a second; a later authenticate that finds the file
  -- as it was left and comes no later than the whole second of its expiry enters the portal with
  -- that token and does not log in; the seconds have to fit an int, the JSON library has to parse
  -- what it prints, and the HTTP client leaves the file alone.
  pub authenticate_twice :
      (username password account_id : Bytes) (old token : AuthToken) (w w' later : World)
      → LeavesFile
      → load J (K.token_file w) ≡ ok old
      → leb_ℤ (K.now w) old.expiry_time ≡ false
      → login B H K J username password w ≡ (ok token, w')
      → IsInt32 (to_seconds token.expiry_time)
      → J.parse (J.pretty (token_json J token)) ≡ ok (token_json J token)
      → K.token_file later ≡ K.token_file ((authenticate B H K J username password account_id w).1)
      → leb_ℤ (K.now later) ((in_seconds token).expiry_time) ≡ true
      → (load J (K.token_file ((authenticate B H K J username password account_id w).1))
          ≡ ok (in_seconds token))
        × (authenticate B H K J username password account_id later
            ≡ enter_portal B H K J account_id (in_seconds token) later)
  authenticate_twice username password account_id old token w w' later leaves o e l i p f h =
      let kept = file_behind username password account_id old token w w' leaves o e l in
      (
        ap (load J) kept ∙ load-save_token J token i p,
        entered username password account_id (in_seconds token) later
            (ap (load J) (f ∙ kept) ∙ load-save_token J token i p) h,
      )
