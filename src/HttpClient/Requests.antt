-- ===== src/HttpClient/Requests.antt =====
-- src/http_client.cpp: the request that `send` builds, with the headers that every request carries.
use libtd.Base.{
  Bool, true, false, if◌then◌else◌, Option, none, some, List, [], ◌∷◌, ◌++◌, length, ◌≡◌, refl, sym,
  ap, ◌∙◌,
}
use mathlib.Core.List.{append-nil, append_assoc}
use libtd.Text.{Bytes, codes, equal}
use libtd.Text.Decimal.{show_ℕ}
use libtd.CookieJar.Headers.{to_lower}
use libtd.HttpClient.Boost.{BoostLib, Headers, Request, Verb, get_verb, post_verb, same_name}

abbrev pub user_agent : Bytes
user_agent =
    codes "Mozilla/5.0 (Macintosh; Intel Mac OS X 10.15; rv:136.0) Gecko/20100101 Firefox/136.0"

abbrev pub create_default_headers : Headers
create_default_headers =
    (codes "User-Agent", user_agent)
    ∷ (codes "Accept", codes "*/*")
    ∷ (codes "Accept-Language", codes "en-US,en;q=0.5")
    ∷ (codes "Accept-Encoding", codes "gzip")
    ∷ (codes "Connection", codes "keep-alive")
    ∷ []

abbrev pub application_json_headers : Headers
application_json_headers = (codes "Content-Type", codes "application/json; charset=utf-8") ∷ []

-- The values under a name, in order.
unfoldable pub values_of : Headers → Bytes → List Bytes
unfolding same_name
values_of [] m = []
values_of ((n, v) ∷ hs) m = let rest = values_of hs m in if same_name n m then v ∷ rest else rest

abbrev pub given_values : Option Headers → Bytes → List Bytes
given_values none m = []
given_values (some hs) m = values_of hs m

abbrev pub at_most_one : Option Bytes → List Bytes
at_most_one none = []
at_most_one (some v) = v ∷ []

abbrev pub or_empty : Option Bytes → Bytes
or_empty none = []
or_empty (some s) = s

module _ (B : BoostLib) where
  open B use {
    Fields, no_fields, values, insert, set, erase, prepare_payload, values-no_fields, values-insert,
    values-set, values-erase, values-prepare_payload, length-prepare_payload,
  }

  unfoldable pub insert_all : Headers → Fields → Fields
  insert_all [] f = f
  insert_all ((n, v) ∷ hs) f = insert_all hs (insert n v f)

  unfoldable pub insert_given : Option Headers → Fields → Fields
  unfolding insert_all
  insert_given none f = f
  insert_given (some hs) f = insert_all hs f

  -- What `cookiejar::apply` does to the request, for the text that it has put together.
  unfoldable pub set_cookie : Option Bytes → Fields → Fields
  set_cookie none f = erase (codes "Cookie") f
  set_cookie (some cookie_str) f = insert (codes "Cookie") cookie_str (erase (codes "Cookie") f)

  unfoldable pub add_body : Verb → Option Bytes → Request Fields → Request Fields
  add_body verb (some body) req = record req {
    fields = prepare_payload verb body req.fields;
    body = body;
  }
  add_body get_verb none req = req
  add_body post_verb none req = record req {
    fields = set (codes "Content-Length") (codes "0") req.fields;
  }

  -- `send` up to the `try`, for the default headers, and the cookies that `apply` gives.
  unfoldable pub build :
      Headers → Option Headers → Option Bytes → Verb → Bytes → Option Bytes → Request Fields
  unfolding insert_all insert_given set_cookie add_body
  build default_headers headers cookie_str verb target body = add_body verb body (record {
    verb = verb;
    target = target;
    fields = set_cookie cookie_str (insert_given headers (insert_all default_headers no_fields));
    body = [];
  })

  -- An inserted value goes from the message to the headers that are still to come.
  shift_value :
      (b : Bool) (vs : List Bytes) (v : Bytes) (ws : List Bytes)
      → (if b then vs ++ v ∷ [] else vs) ++ ws ≡ vs ++ (if b then v ∷ ws else ws)
  shift_value true vs v ws = append_assoc vs (v ∷ []) ws
  shift_value false vs v ws = refl

  values-insert_all :
      (hs : Headers) (f : Fields) (m : Bytes)
      → values (insert_all hs f) m ≡ values f m ++ values_of hs m
  unfolding insert_all values_of
  values-insert_all [] f m = sym (append-nil (values f m))
  values-insert_all ((n, v) ∷ hs) f m =
      values-insert_all hs (insert n v f) m
      ∙ ap (λ vs. vs ++ values_of hs m) (values-insert n v f m)
      ∙ shift_value (same_name n m) (values f m) v (values_of hs m)

  values-insert_given :
      (headers : Option Headers) (f : Fields) (m : Bytes)
      → values (insert_given headers f) m ≡ values f m ++ given_values headers m
  unfolding insert_given
  values-insert_given none f m = sym (append-nil (values f m))
  values-insert_given (some hs) f m = values-insert_all hs f m

  erased_first :
      (b : Bool) (vs : List Bytes) (v : Bytes)
      → (if b then (if b then [] else vs) ++ v ∷ [] else (if b then [] else vs))
        ≡ (if b then v ∷ [] else vs)
  erased_first true vs v = refl
  erased_first false vs v = refl

  values-set_cookie :
      (cookie_str : Option Bytes) (f : Fields) (m : Bytes)
      → values (set_cookie cookie_str f) m
        ≡ (if same_name (codes "Cookie") m then at_most_one cookie_str else values f m)
  unfolding set_cookie
  values-set_cookie none f m = values-erase (codes "Cookie") f m
  values-set_cookie (some s) f m =
      rw
        (
          values-insert (codes "Cookie") s (erase (codes "Cookie") f) m,
          values-erase (codes "Cookie") f m,
        )
        (erased_first (same_name (codes "Cookie") m) (values f m) s)

  values-add_body :
      (verb : Verb) (body : Option Bytes) (req : Request Fields) (m : Bytes)
      → same_name (codes "Content-Length") m ≡ false
      → same_name (codes "Transfer-Encoding") m ≡ false
      → values ((add_body verb body req).fields) m ≡ values (req.fields) m
  unfolding add_body
  values-add_body verb (some body) req m p q = values-prepare_payload verb body req.fields m p q
  values-add_body get_verb none req m p q = refl
  values-add_body post_verb none req m p q =
      rw (values-set (codes "Content-Length") (codes "0") req.fields m, p) refl

  pub build-other :
      (default_headers : Headers) (headers : Option Headers) (cookie_str : Option Bytes)
      (verb : Verb) (target : Bytes) (body : Option Bytes) (m : Bytes)
      → same_name (codes "Cookie") m ≡ false
      → same_name (codes "Content-Length") m ≡ false
      → same_name (codes "Transfer-Encoding") m ≡ false
      → values ((build default_headers headers cookie_str verb target body).fields) m
        ≡ values_of default_headers m ++ given_values headers m
  unfolding build
  build-other hs headers cookie_str verb target body m p q r =
      values-add_body verb body _ m q r
      ∙ values-set_cookie cookie_str _ m
      ∙ rw
          (
            p,
            values-insert_given headers (insert_all hs no_fields) m,
            values-insert_all hs no_fields m,
            values-no_fields m,
          )
          refl

  pub build-cookie :
      (default_headers : Headers) (headers : Option Headers) (cookie_str : Option Bytes)
      (verb : Verb) (target : Bytes) (body : Option Bytes)
      → values ((build default_headers headers cookie_str verb target body).fields) (codes "Cookie")
        ≡ at_most_one cookie_str
  unfolding build same_name to_lower equal
  build-cookie hs headers cookie_str verb target body =
      values-add_body verb body _ (codes "Cookie") refl refl
      ∙ values-set_cookie cookie_str (insert_given headers (insert_all hs no_fields))
          (codes "Cookie")

  build-length :
      (default_headers : Headers) (headers : Option Headers) (cookie_str : Option Bytes)
      (target : Bytes) (body : Option Bytes)
      → values
          ((build default_headers headers cookie_str post_verb target body).fields)
          (codes "Content-Length")
        ≡ show_ℕ (length (or_empty body)) ∷ []
  unfolding build add_body same_name to_lower equal show_ℕ
  build-length hs headers cookie_str target none =
      values-set (codes "Content-Length") (codes "0") _ (codes "Content-Length")
  build-length hs headers cookie_str target (some body) = length-prepare_payload body _

  pub build-line :
      (default_headers : Headers) (headers : Option Headers) (cookie_str : Option Bytes)
      (verb : Verb) (target : Bytes) (body : Option Bytes)
      → let req : Request Fields = build default_headers headers cookie_str verb target body in
        (req.verb ≡ verb) × (req.target ≡ target) × (req.body ≡ or_empty body)
  unfolding build add_body
  build-line hs headers cookie_str verb target (some body) = (refl, refl, refl)
  build-line hs headers cookie_str get_verb target none = (refl, refl, refl)
  build-line hs headers cookie_str post_verb target none = (refl, refl, refl)

  -- Under any name but Cookie, Content-Length and Transfer-Encoding, a request that send builds
  -- carries the default values and then the given ones, each in their order; under Cookie it
  -- carries the text of the jar and nothing else; and a POST request says the length of its body,
  -- also where it has none.
  pub build-values :
      (default_headers : Headers) (headers : Option Headers) (cookie_str : Option Bytes)
      (verb : Verb) (target : Bytes) (body : Option Bytes) (m : Bytes)
      → same_name (codes "Cookie") m ≡ false
      → same_name (codes "Content-Length") m ≡ false
      → same_name (codes "Transfer-Encoding") m ≡ false
      → (values ((build default_headers headers cookie_str verb target body).fields) m
          ≡ values_of default_headers m ++ given_values headers m)
        × (values
              ((build default_headers headers cookie_str verb target body).fields)
              (codes "Cookie")
            ≡ at_most_one cookie_str)
        × (values
              ((build default_headers headers cookie_str post_verb target body).fields)
              (codes "Content-Length")
            ≡ show_ℕ (length (or_empty body)) ∷ [])
  build-values hs headers cookie_str verb target body m p q r = (
    build-other hs headers cookie_str verb target body m p q r,
    build-cookie hs headers cookie_str verb target body,
    build-length hs headers cookie_str target body,
  )
