-- ===== src/Tests/Network.antt =====
-- A network and a library of messages in which the interfaces of the HTTP client hold. A URL is its text,
-- and the world is the list of the requests so far, with the file of the token.
use libtd.Base.{
  ◌==◌, Bool, true, false, if◌then◌else◌, Option, none, some, List, [], ◌∷◌, ◌++◌, length, map, ◌≡◌,
  ◌∙◌, arith, refl, ok, err, system_error, bad_lexical_cast,
}
use libtd.Base.Int.{pos}
use libtd.Text.{Bytes, codes, equal, equal_iff}
use libtd.Text.Decimal.{show_ℕ}
use libtd.CookieJar.Headers.{session, to_lower}
use libtd.HttpClient.Boost.{
  BoostLib, Network, Headers, Response, Verb, get_verb, post_verb, same_name, success, found, other,
}
use libtd.HttpClient.Requests.{values_of}
use libtd.HttpClient.Client.{Client}
use libtd.RestApi.Pages.{login_key, account_key}

abbrev without : Bytes → Headers → Headers
without n [] = []
without n ((m, v) ∷ hs) = let rest = without n hs in if same_name n m then rest else (m, v) ∷ rest

abbrev first_of : Headers → Bytes → Option Bytes
first_of [] m = none
first_of ((n, v) ∷ hs) m = let rest = first_of hs m in if same_name n m then some v else rest

abbrev set_field : Bytes → Bytes → Headers → Headers
set_field n v hs = without n hs ++ (n, v) ∷ []

-- A value in front and one at the end.
both_ends :
    (a b : Bool) (u v : Bytes) (vs : List Bytes)
    → (if a then u ∷ (if b then vs ++ v ∷ [] else vs) else (if b then vs ++ v ∷ [] else vs))
      ≡ (if b then (if a then u ∷ vs else vs) ++ v ∷ [] else (if a then u ∷ vs else vs))
both_ends true true u v vs = refl
both_ends true false u v vs = refl
both_ends false true u v vs = refl
both_ends false false u v vs = refl

pub values_of-append :
    (n v : Bytes) (f : Headers) (m : Bytes)
    → values_of (f ++ (n, v) ∷ []) m
      ≡ (if same_name n m then values_of f m ++ v ∷ [] else values_of f m)
unfolding values_of
values_of-append n v [] m = refl
values_of-append n v ((k, u) ∷ f) m =
    rw (values_of-append n v f m) (both_ends (same_name k m) (same_name n m) u v (values_of f m))

pub values_of-without :
    (n : Bytes) (f : Headers) (m : Bytes)
    → values_of (without n f) m ≡ (if same_name n m then [] else values_of f m)
unfolding values_of same_name
values_of-without n [] m = ground arith
values_of-without n ((k, u) ∷ f) m = ground (
  arith,
  values_of-without n f m,
  equal_iff (map to_lower n) (map to_lower k),
  equal_iff (map to_lower n) (map to_lower m),
  equal_iff (map to_lower k) (map to_lower m),
)

pub values_of-set :
    (n v : Bytes) (f : Headers) (m : Bytes)
    → values_of (set_field n v f) m ≡ (if same_name n m then v ∷ [] else values_of f m)
values_of-set n v f m =
    values_of-append n v (without n f) m ∙ rw (values_of-without n f m) (kept (same_name n m))
  where
    kept :
        (b : Bool)
        → (if b
            then (if b then [] else values_of f m) ++ v ∷ []
            else (if b then [] else values_of f m))
          ≡ (if b then v ∷ [] else values_of f m)
    kept true = refl
    kept false = refl

abbrev payload : Verb → Bytes → Headers → Headers
payload get_verb body f = f
payload post_verb body f = set_field (codes "Content-Length") (show_ℕ (length body)) f

pub payload-other :
    (verb : Verb) (body : Bytes) (f : Headers) (m : Bytes)
    → same_name (codes "Content-Length") m ≡ false
    → same_name (codes "Transfer-Encoding") m ≡ false
    → values_of (payload verb body f) m ≡ values_of f m
payload-other get_verb body f m h k = refl
payload-other post_verb body f m h k =
    rw (values_of-set (codes "Content-Length") (show_ℕ (length body)) f m, h) refl

pub payload-length :
    (body : Bytes) (f : Headers)
    → values_of (payload post_verb body f) (codes "Content-Length") ≡ show_ℕ (length body) ∷ []
unfolding same_name equal to_lower
payload-length body f =
    values_of-set (codes "Content-Length") (show_ℕ (length body)) f (codes "Content-Length")

pub no_values : (m : Bytes) → values_of [] m ≡ []
unfolding values_of
no_values m = refl

abbrev pub boost : BoostLib
boost = record {
  Fields = Headers;
  no_fields = [];
  values = values_of;
  each = λ f. f;
  first = first_of;
  insert = λ n v f. f ++ (n, v) ∷ [];
  set = set_field;
  erase = without;
  prepare_payload = payload;
  Url = Bytes;
  parse_url = λ s. ok s;
  encoded_target = λ u. u;
  buffer = λ u. u;
  scheme = λ u. codes "https";
  host = λ u. u;
  port = λ u. none;
  ots_parameter = λ s. ok (some (codes "o"));
  gunzip = λ s. ok s;
  values-no_fields = no_values;
  values-insert = values_of-append;
  values-set = values_of-set;
  values-erase = values_of-without;
  length-prepare_payload = payload-length;
  values-prepare_payload = payload-other;
}

-- What the last request asked for, and the file of the token.
pub record TestWorld : Type 0 where
  pub last : Bytes
  pub file : Option Bytes

abbrev pub to_b : Response Headers
to_b = record { status = found; fields = (codes "Location", codes "b") ∷ []; body = [] }

abbrev pub landed : Response Headers
landed = record {
  status = success;
  fields = (codes "Set-Cookie", codes "o=T1") ∷ [];
  body = login_key ++ (codes "L7\" " ++ (account_key ++ codes "A9\""));
}

abbrev pub refused : Response Headers
refused = record { status = other; fields = []; body = [] }

-- The answer to a login.
abbrev pub welcome : Response Headers
welcome = record { status = success; fields = []; body = codes "n" }

abbrev pub to_c : Response Headers
to_c = record { status = found; fields = (codes "Location", codes "c") ∷ []; body = [] }

-- The site `a` leads to `b`, which shows the page of an account; `c` leads back to itself.
abbrev answer_of : Bytes → Response Headers
answer_of [] = refused
answer_of (c ∷ s) =
    if c == b'a'
    then to_b
    else if c == b'b'
    then landed
    else if c == b'c'
    then to_c
    else if c == b'/'
    then welcome
    else refused

-- A request for `x` finds the connection broken.
abbrev is_broken : Bytes → Bool
is_broken [] = false
is_broken (c ∷ s) = c == b'x'

abbrev pub network : Network boost
network = record {
  World = TestWorld;
  Socket = Bool;
  Endpoints = Unit {0};
  new_socket = false;
  is_open = λ s. s;
  now = λ w. pos 5;
  proxy = λ w. none;
  cookie_file = λ w name. none;
  debug = none;
  to_bool = λ s. err bad_lexical_cast;
  show = λ lines w. w;
  status_line = λ res. [];
  read_date = λ s. none;
  walk_headers = λ hs. hs;
  walk_cookies = λ cs. cs;
  resolve = λ host port w. (ok tt, w);
  set_host_name = λ host s. (true, s);
  connect = λ endpoints s. (ok tt, (true, s.1));
  handshake = λ s. (ok tt, s);
  write = λ req s. (
    if is_broken req.target then err system_error else ok tt,
    (s.0, record (s.1) { last = req.target }),
  );
  read = λ s. (ok (answer_of (s.1.last)), s);
}

abbrev pub nowhere : TestWorld
nowhere = record { last = []; file = none }

abbrev pub visitor : Client Bool
visitor = record {
  stream = true;
  host = codes "a";
  jar = session (codes "o") (codes "T0") ∷ [];
  default_headers = (codes "Accept", codes "*/*") ∷ [];
}
