-- ===== src/RestApi/Connecting.antt =====
-- What `connect` gives, and the headers that every later request carries.
use libtd.Base.{ℕ, ◌≤◌, some, [], ◌∷◌, ◌++◌, ◌≡◌, refl, sym, ap, ◌∙◌, ok}
use mathlib.Core.List.{append_assoc, append-nil}
use libtd.Base.Stateful.{◌>>=◌, ◌>>◌}
use libtd.Text.{Bytes}
use libtd.HttpClient.Boost.{BoostLib, Headers, Response, success}
use libtd.RestApi.Urls.{replace_spaces}
use libtd.RestApi.Pages.{read_page}
use libtd.HttpClient.Interface.{HttpLib}
use libtd.RestApi.Client.{RestApi, with_client, details_url, max_depth, on_client, on_world}
use libtd.RestApi.Redirection.{Redirects, arrived, moved, open_client-Redirects}
use libtd.RestApi.Calls.{connect, page_headers, emplace_all, add_headers, read_cookie, set_client}

module _ (B : BoostLib) (H : HttpLib B) where
  open H use {Client, World}

  headers-emplace_all :
      (hs : Headers) (c : Client)
      → H.default_headers (emplace_all B H hs c) ≡ H.default_headers c ++ hs
  unfolding emplace_all
  headers-emplace_all [] c = sym (append-nil (H.default_headers c))
  headers-emplace_all ((n, v) ∷ hs) c =
      headers-emplace_all hs (H.emplace n v c)
      ∙ ap (λ k. k ++ hs) (H.headers-emplace n v c)
      ∙ append_assoc (H.default_headers c) ((n, v) ∷ []) hs

  headers-Redirects :
      {n : ℕ} {t w : Bytes} {s s' : Client × World}
      → Redirects B H n t s w s'
      → H.default_headers (s'.0) ≡ H.default_headers (s.0)
  headers-Redirects arrived = refl
  headers-Redirects (moved {u = u} {s = s} p q k e rs) =
      headers-Redirects rs
      ∙ ap (λ o. H.default_headers (o.1.0)) (sym q)
      ∙ H.headers-get (B.encoded_target u) s

  -- The client after a login through a page.
  unfoldable pub logged_in : B.Url → Bytes → Client × World → Client × World
  unfolding emplace_all
  logged_in url ots s = (emplace_all B H (page_headers B H url ots) (s.0), s.1)

  -- Through at most four redirects to a page that can be read, connect gives the value of the
  -- cookie with the name of the ots of the last target, and the login identifier of the page; it
  -- keeps the account identifier and the URL of the market details, and the default headers of
  -- the client are those that it was made with and the four of the page.
  pub connect-Redirects :
      {n : ℕ} {w : Bytes} {s' s'' : Client × World} (url : B.Url) (r : RestApi Client)
      (w0 w1 : World) (c : Client) (ots login_id account : Bytes) (u : B.Url)
      (page : Response (B.Fields))
      → H.create url w0 ≡ (ok c, w1)
      → n ≤ max_depth
      → Redirects B H n (B.encoded_target url) (c, w1) w s'
      → B.parse_url (replace_spaces w) ≡ ok u
      → H.get (B.encoded_target u) s' ≡ (ok page, s'')
      → page.status ≡ success
      → read_page B w page ≡ ok (ots, login_id, account)
      → (connect B H url (r, w0) ≡ (
        ok (record { token = (H.cookie (s''.0) ots).value; login_id = login_id }),
        with_client B H
            (record r { account_id = account; get_market_details_url = details_url B H account })
            (logged_in url ots s''),
      ))
        × (H.default_headers ((logged_in url ots s'').0)
            ≡ H.default_headers c ++ page_headers B H url ots)
  unfolding connect on_world on_client add_headers read_cookie set_client logged_in ◌>>=◌ ◌>>◌
  connect-Redirects {s' = s'} {s'' = s''} url r w0 w1 c ots login_id account u page made h rs p q k
        e =
      (
        rw
            (
              made,
              open_client-Redirects B H (record r { client = some c }) ots login_id account u page h
                  rs p q k e,
            )
            refl,
        headers-emplace_all (page_headers B H url ots) (s''.0)
            ∙ ap (λ hs. hs ++ page_headers B H url ots)
                (ap (λ o. H.default_headers (o.1.0)) (sym q)
                  ∙ H.headers-get (B.encoded_target u) s'
                  ∙ headers-Redirects rs),
      )
