-- ===== src/HttpClient/Boost.antt =====
-- Boost and OpenSSL, which are not part of the repository: what the HTTP client, and the code above
-- it, calls of them, with the documented behaviour that the theorems rely on.
use libtd.Base.{Bool, false, if◌then◌else◌, Option, List, [], ◌∷◌, ◌++◌, map, length, ◌≡◌, Result}
use libtd.Base.Int.{ℤ}
use libtd.Base.Stateful.{Stateful}
use libtd.Text.{Bytes, codes, equal}
use libtd.Text.Decimal.{show_ℕ}
use libtd.CookieJar.Headers.{Cookie, to_lower}

pub data Verb : Type 0 where
  get_verb post_verb : Verb

-- `status::ok`, `status::found`, and all others.
pub data Status : Type 0 where
  success found other : Status

-- Entries of `http_headers`, or the fields of a message, as a loop goes over them.
abbrev pub Headers : Type 0
Headers = List (Bytes × Bytes)

pub record Request (Fields : Type 0) : Type 0 where
  pub verb : Verb
  pub target : Bytes
  pub fields : Fields
  pub body : Bytes

pub record Response (Fields : Type 0) : Type 0 where
  pub status : Status
  pub fields : Fields
  pub body : Bytes

-- Names of fields are compared without regard to case.
unfoldable pub same_name : Bytes → Bytes → Bool
unfolding equal to_lower
same_name a b = equal (map to_lower a) (map to_lower b)

pub record BoostLib : Type 1 where
  -- The fields of a message: the values under a name, all of the fields in order, the first value
  -- under a name, `insert`, `set` and `erase`.
  pub Fields : Type 0
  pub no_fields : Fields
  pub values : Fields → Bytes → List Bytes
  pub each : Fields → Headers
  pub first : Fields → Bytes → Option Bytes
  pub insert : Bytes → Bytes → Fields → Fields
  pub set : Bytes → Bytes → Fields → Fields
  pub erase : Bytes → Fields → Fields
  -- The fields of a request after `prepare_payload`, for a verb and a body.
  pub prepare_payload : Verb → Bytes → Fields → Fields
  -- URLs: the parser, `encoded_target`, `buffer`, `scheme`, `host`, `port` where the URL has one, and the
  -- parameter `ots` of a target, where it has one.
  pub Url : Type 0
  pub parse_url : Bytes → Result Url
  pub encoded_target : Url → Bytes
  pub buffer : Url → Bytes
  pub scheme : Url → Bytes
  pub host : Url → Bytes
  pub port : Url → Option Bytes
  pub ots_parameter : Bytes → Result (Option Bytes)
  -- `gzip_decompressor`
  pub gunzip : Bytes → Result Bytes
  pub values-no_fields : (m : Bytes) → values no_fields m ≡ []
  pub values-insert :
      (n v : Bytes) (f : Fields) (m : Bytes)
      → values (insert n v f) m ≡ (if same_name n m then values f m ++ v ∷ [] else values f m)
  pub values-set :
      (n v : Bytes) (f : Fields) (m : Bytes)
      → values (set n v f) m ≡ (if same_name n m then v ∷ [] else values f m)
  pub values-erase :
      (n : Bytes) (f : Fields) (m : Bytes)
      → values (erase n f) m ≡ (if same_name n m then [] else values f m)
  pub length-prepare_payload :
      (body : Bytes) (f : Fields)
      → values (prepare_payload post_verb body f) (codes "Content-Length")
        ≡ show_ℕ (length body) ∷ []
  pub values-prepare_payload :
      (verb : Verb) (body : Bytes) (f : Fields) (m : Bytes)
      → same_name (codes "Content-Length") m ≡ false
      → same_name (codes "Transfer-Encoding") m ≡ false
      → values (prepare_payload verb body f) m ≡ values f m

-- The world outside: the clock, the environment, the files, and the other ends of the connections. A
-- socket is the stream of one client. The orders in which the code walks its maps are not specified.
pub record Network (B : BoostLib) : Type 1 where
  pub World : Type 0
  pub Socket : Type 0
  pub Endpoints : Type 0
  pub new_socket : Socket
  pub is_open : Socket → Bool
  pub now : World → ℤ
  pub proxy : World → Option Bytes
  pub cookie_file : World → Bytes → Option Bytes
  -- The variable DEBUG, `boost::lexical_cast<bool>`, where the debug output goes, and the number and the
  -- reason of a response as it shows them.
  pub debug : Option Bytes
  pub to_bool : Bytes → Result Bool
  pub show : List Bytes → World → World
  pub status_line : Response (B.Fields) → Bytes
  pub read_date : Bytes → Option ℤ
  pub walk_headers : Headers → Headers
  pub walk_cookies : List Cookie → List Cookie
  pub resolve : Bytes → Bytes → Stateful World Endpoints
  pub set_host_name : Bytes → Socket × World → Bool × (Socket × World)
  pub connect : Endpoints → Stateful (Socket × World) (Unit {0})
  pub handshake : Stateful (Socket × World) (Unit {0})
  pub write : Request (B.Fields) → Stateful (Socket × World) (Unit {0})
  pub read : Stateful (Socket × World) (Response (B.Fields))
