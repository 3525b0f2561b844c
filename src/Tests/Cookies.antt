-- ===== src/Tests/Cookies.antt =====
-- A cookie jar on concrete headers and dates.
use libtd.Base.{
  none, false, All, map, true, List, [], ◌∷◌, ◌++◌, Option, some, ◌≡◌, refl, ok, ◌>>=◌, arith,
}
use libtd.Base.Int.{ℤ, pos}
use libtd.Text.{Bytes, codes, equal}
use libtd.CookieJar.Headers.{is_space, Cookie, session, attribute, is_blank}
use libtd.CookieJar.Abstract.{lookup, map_update, Implements, update-map_update}
use libtd.CookieJar.File.{load, save}
use libtd.CookieJar.Storage.{IsStorable, in_seconds, load-save}
use libtd.CookieJar.Jar.{Header, put, get, update, remove_expired, apply}
use libtd.CookieJar.Lookup.{has, HasUniqueNames, IsPlain, get-epoch}
use libtd.CookieJar.RequestHeader.{live_cookies, cookie_header, apply_lem}

abbrev no_date : Bytes → Option ℤ
no_date s = some (pos 0)

abbrev stale : Cookie
stale = record { name = codes "a"; value = codes "1"; expiry_time = pos 5 }

abbrev a_jar : List Cookie
a_jar = stale ∷ session (codes "b") (codes "2") ∷ []

a_jar-HasUniqueNames : HasUniqueNames a_jar
unfolding HasUniqueNames has equal
a_jar-HasUniqueNames = (refl, (refl, tt))

plain : IsPlain (codes "b" ++ b'=' ∷ codes "3")
unfolding IsPlain is_blank
plain = ground arith

abbrev set_b : Header
set_b = record { is_set_cookie = true; value = codes "b" ++ b'=' ∷ codes "3" }

get-epoch_example :
    (attribute (pos 9) no_date (some (codes "Expires", codes "Thu, 01 Jan 1970 00:00:00 GMT")) stale
      >>= λ d. ok (get (remove_expired (pos 9) (put d a_jar)) (codes "a")))
    ≡ ok (record stale { expiry_time = pos 0 })
get-epoch_example =
    get-epoch (pos 9) no_date (codes "Thu, 01 Jan 1970 00:00:00 GMT") stale a_jar (pos 9) refl
      a_jar-HasUniqueNames

apply_lem_example :
    apply (λ cs. cs) (pos 9) a_jar
    ≡ (live_cookies (pos 9) a_jar, cookie_header (live_cookies (pos 9) a_jar))
apply_lem_example = apply_lem (λ cs. cs) (pos 9) a_jar

abbrev lasting : Cookie
lasting = record { name = codes "b"; value = codes "2"; expiry_time = pos 7000000001 }

abbrev stored : List Cookie
stored = session (codes "a") (codes "1") ∷ lasting ∷ []

stored-HasUniqueNames : HasUniqueNames stored
unfolding HasUniqueNames has equal
stored-HasUniqueNames = (refl, (refl, tt))

stored-IsStorable : All IsStorable stored
unfolding is_space
stored-IsStorable = (
  record { name = (refl, tt); value = (refl, tt); time = ground arith },
  (record { name = (refl, tt); value = (refl, tt); time = ground arith }, tt),
)

load-save_example : load (some (save (λ cs. cs) stored)) ≡ ok (map in_seconds stored)
load-save_example = load-save (λ cs. cs) stored stored-HasUniqueNames stored-IsStorable

abbrev two_headers : List Header
two_headers =
    record { is_set_cookie = true; value = codes "a=2" }
    ∷ record { is_set_cookie = false; value = [] }
    ∷ []

update-map_update_example :
    Implements
      (update (pos 5) (λ s. none) two_headers stored)
      (map_update (pos 5) (λ s. none) two_headers (lookup stored))
update-map_update_example =
    update-map_update (pos 5) (λ s. none) two_headers stored (lookup stored) (λ n. refl)
