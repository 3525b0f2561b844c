-- ===== src/RestApi/Redirection.antt =====
-- `open_client` through redirects: up to four lead to the page, and five in a row are refused.
use libtd.Base.{ℕ, suc, ◌+◌, ◌-◌, ◌≤◌, some, ◌≡◌, refl, ◌∙◌, ap, arith, ok, err, runtime_error}
use libtd.Base.Stateful.{◌>>=◌, ◌>>◌}
use libtd.Text.{Bytes, codes}
use libtd.HttpClient.Boost.{BoostLib, Response, success, found}
use libtd.RestApi.Urls.{replace_spaces}
use libtd.RestApi.Pages.{read_page}
use libtd.HttpClient.Interface.{HttpLib}
use libtd.RestApi.Client.{
  RestApi, with_client, details_url, max_depth, on_client, finish, answer, round, open_loop,
  open_client,
}

module _ (B : BoostLib) (H : HttpLib B) where
  open H use {Client, World}

  -- So many redirects lead from one target and state of the client and the world to another.
  pub data Redirects : ℕ → Bytes → Client × World → Bytes → Client × World → Type 0 where
    arrived : {t : Bytes} {s : Client × World} → Redirects 0 t s t s
    moved :
        {n : ℕ} {t v w : Bytes} {u : B.Url} {response : Response (B.Fields)}
        {s s' s'' : Client × World}
        → B.parse_url (replace_spaces t) ≡ ok u
        → H.get (B.encoded_target u) s ≡ (ok response, s')
        → response.status ≡ found
        → B.first response.fields (codes "Location") ≡ some v
        → Redirects n v s' w s''
        → Redirects (suc n) t s w s''

  -- A redirect takes one round.
  open_loop-moved :
      (left : ℕ) (r : RestApi Client) (t v : Bytes) (u : B.Url) (response : Response (B.Fields))
      (s s' : Client × World)
      → B.parse_url (replace_spaces t) ≡ ok u
      → H.get (B.encoded_target u) s ≡ (ok response, s')
      → response.status ≡ found
      → B.first response.fields (codes "Location") ≡ some v
      → open_loop B H (suc left) t (with_client B H r s)
        ≡ open_loop B H left v (with_client B H r s')
  unfolding open_loop round answer on_client ◌>>=◌
  open_loop-moved left r t v u response s s' p q found_status e = rw (p, q, found_status, e) refl

  round_left : (n left : ℕ) → suc n + left ≡ suc (n + left)
  round_left n left = omega arith

  all_left : (left : ℕ) → 0 + left ≡ left
  all_left left = omega arith

  open_loop-Redirects :
      {n : ℕ} {t w : Bytes} {s s' : Client × World} (left : ℕ) (r : RestApi Client)
      → Redirects n t s w s'
      → open_loop B H (n + left) t (with_client B H r s)
        ≡ open_loop B H left w (with_client B H r s')
  open_loop-Redirects left r arrived = rw (all_left left) refl
  open_loop-Redirects left r (moved {n} {t} {v} {w} {u} {response} {s} {s'} p q k e rs) =
      rw (round_left n left)
        (open_loop-moved (n + left) r t v u response s s' p q k e ∙ open_loop-Redirects left r rs)

  rounds : (n : ℕ) → n ≤ max_depth → suc max_depth ≡ n + suc (max_depth - n)
  rounds n h = omega (arith, h)

  open_loop-page :
      (left : ℕ) (r : RestApi Client) (w ots login_id account : Bytes) (u : B.Url)
      (page : Response (B.Fields)) (s s' : Client × World)
      → B.parse_url (replace_spaces w) ≡ ok u
      → H.get (B.encoded_target u) s ≡ (ok page, s')
      → page.status ≡ success
      → read_page B w page ≡ ok (ots, login_id, account)
      → open_loop B H (suc left) w (with_client B H r s) ≡ (
        ok (ots, login_id),
        with_client B H
            (record r { account_id = account; get_market_details_url = details_url B H account })
            s',
      )
  unfolding open_loop round answer finish on_client ◌>>=◌ ◌>>◌ read_page
  open_loop-page left r w ots login_id account u page s s' p q k e = rw (p, q, k, e) refl

  -- Through at most four redirects, open_client reaches a page that can be read, gives the ots of
  -- the last target and the login identifier of the page, and keeps the account identifier and
  -- the URL of the market details.
  pub open_client-Redirects :
      {n : ℕ} {t w : Bytes} {s s' s'' : Client × World} (r : RestApi Client)
      (ots login_id account : Bytes) (u : B.Url) (page : Response (B.Fields))
      → n ≤ max_depth
      → Redirects n t s w s'
      → B.parse_url (replace_spaces w) ≡ ok u
      → H.get (B.encoded_target u) s' ≡ (ok page, s'')
      → page.status ≡ success
      → read_page B w page ≡ ok (ots, login_id, account)
      → open_client B H t (with_client B H r s) ≡ (
        ok (ots, login_id),
        with_client B H
            (record r { account_id = account; get_market_details_url = details_url B H account })
            s'',
      )
  unfolding open_client
  open_client-Redirects {n} {t} {w} {s} {s'} {s''} r ots login_id account u page h rs p q k e =
      ap (λ left. open_loop B H left t (with_client B H r s)) (rounds n h)
      ∙ open_loop-Redirects (suc (max_depth - n)) r rs
      ∙ open_loop-page (max_depth - n) r w ots login_id account u page s' s'' p q k e

  -- After five redirects in a row open_client throws a runtime error, has made no sixth request,
  -- and keeps its identifiers.
  pub open_client_too_deep :
      {t w : Bytes} {s s' : Client × World} (r : RestApi Client)
      → Redirects 5 t s w s'
      → open_client B H t (with_client B H r s) ≡ (err runtime_error, with_client B H r s')
  unfolding open_client open_loop
  open_client_too_deep r rs = open_loop-Redirects 0 r rs
