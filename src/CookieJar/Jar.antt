-- ===== src/CookieJar/Jar.antt =====
-- The jar. The map from names to cookies is the list of its cookies; the order in which the code walks
-- the map is not specified, and `walk` gives it.
use libtd.Base.{
  Bool, not, ◌&&◌, if◌then◌else◌, Option, none, some, List, [], ◌∷◌, ◌++◌, Result, ok, ◌>>=◌,
}
use libtd.Base.Int.{ℤ, pos, eqb_ℤ, leb_ℤ}
use libtd.Text.{Bytes, codes, equal}
use libtd.CookieJar.Headers.{Cookie, session, read_header}

pub record Header : Type 0 where
  pub is_set_cookie : Bool
  pub value : Bytes

-- `cookies_[c.name] = c`
unfoldable pub put : Cookie → List Cookie → List Cookie
put c [] = c ∷ []
put c (d ∷ ds) = if equal d.name c.name then c ∷ ds else d ∷ put c ds

-- `get`: a missing name gives an empty cookie.
unfoldable pub get : List Cookie → Bytes → Cookie
get [] name = session [] []
get (c ∷ cs) name = if equal c.name name then c else get cs name

unfoldable pub store : Option Cookie → List Cookie → List Cookie
unfolding put
store none jar = jar
store (some c) jar = put c jar

unfoldable pub update : ℤ → (Bytes → Option ℤ) → List Header → List Cookie → Result (List Cookie)
unfolding store
update now read_date [] jar = ok jar
update now read_date (h ∷ hs) jar =
    let rest = update now read_date hs in
    if h.is_set_cookie
    then (do c ← read_header now read_date h.value; rest (store c jar))
    else rest jar

unfoldable pub is_expired : ℤ → Cookie → Bool
is_expired now c = not (eqb_ℤ c.expiry_time (pos 0)) && leb_ℤ c.expiry_time now

-- The loop that erases.
unfoldable pub remove_expired : ℤ → List Cookie → List Cookie
unfolding is_expired
remove_expired now [] = []
remove_expired now (c ∷ cs) =
    let rest = remove_expired now cs in if is_expired now c then rest else c ∷ rest

unfoldable pub separator : Bytes → Bytes
separator [] = []
separator (c ∷ s) = codes "; "

unfoldable pub pair_text : Cookie → Bytes
pair_text c = c.name ++ b'=' ∷ c.value

-- The loop over the map, with the text so far.
unfoldable pub header_loop : Bytes → List Cookie → Bytes
unfolding separator pair_text
header_loop cookie_str [] = cookie_str
header_loop cookie_str (c ∷ cs) =
    header_loop ((cookie_str ++ separator cookie_str) ++ pair_text c) cs

unfoldable pub if_not_empty : Bytes → Option Bytes
if_not_empty [] = none
if_not_empty (c ∷ s) = some (c ∷ s)

-- The cookies that are left, and the `Cookie` header of the request, which is erased if it would be empty.
unfoldable pub apply : (List Cookie → List Cookie) → ℤ → List Cookie → List Cookie × Option Bytes
unfolding remove_expired header_loop if_not_empty
apply walk now jar =
    let left = remove_expired now jar in (left, if_not_empty (header_loop [] (walk left)))
