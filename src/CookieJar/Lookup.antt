-- ===== src/CookieJar/Lookup.antt =====
-- What `get` gives after `update` and after the loop that erases.
use libtd.Base.{
  ℕ, Bool, true, false, ◌||◌, ◌==◌, if◌then◌else◌, Option, none, some, List, [], ◌∷◌, ◌++◌, All,
  ◌≡◌, refl, ap, ◌∙◌, arith, Result, ok, err, ◌>>=◌, Bool-cases, inl, inr,
}
use libtd.Base.Int.{ℤ, pos, ◌*ℤ◌}
use libtd.Parsing.Numbers.{int64}
use libtd.Text.{Bytes, codes, equal, equal_iff, equal_refl}
use libtd.Text.Split.{Free}
use libtd.Text.Search.{find_byte, take-length, drop-length-suc}
use libtd.CookieJar.Headers.{
  to_lower, attribute, set_expires, Cookie, session, read_header, lines, trim, split_pair,
  attributes, with_tokens, named, cut, first_line, trim_start, trim_end, keep_blank, is_blank,
}
use libtd.CookieJar.Jar.{Header, put, get, store, update, is_expired, remove_expired}

unfoldable pub has : List Cookie → Bytes → Bool
has [] n = false
has (c ∷ cs) n = equal c.name n || has cs n

-- No name stands twice.
unfoldable pub HasUniqueNames : List Cookie → Type 0
unfolding has
HasUniqueNames [] = Unit
HasUniqueNames (c ∷ cs) = (has cs c.name ≡ false) × HasUniqueNames cs

-- A cookie that is put is got back, and the others are as they were.
pub get-put :
    (c : Cookie) (jar : List Cookie) (n : Bytes)
    → get (put c jar) n ≡ (if equal c.name n then c else get jar n)
unfolding get put
get-put c [] n = refl
get-put c (d ∷ ds) n =
    ground (arith, get-put c ds n, equal_iff d.name c.name, equal_iff d.name n, equal_iff c.name n)

has-put :
    (c : Cookie) (jar : List Cookie) (n : Bytes) → has (put c jar) n ≡ (equal c.name n || has jar n)
unfolding has put
has-put c [] n = refl
has-put c (d ∷ ds) n =
    ground (arith, has-put c ds n, equal_iff d.name c.name, equal_iff d.name n, equal_iff c.name n)

pub put-HasUniqueNames :
    (c : Cookie) (jar : List Cookie) → HasUniqueNames jar → HasUniqueNames (put c jar)
unfolding HasUniqueNames put has
put-HasUniqueNames c [] u = (refl, tt)
put-HasUniqueNames c (d ∷ ds) u = elim (Bool-cases (equal d.name c.name)) [
  | inl same ↦ rw same (ground (arith, equal_iff d.name c.name), u.1)
  | inr new ↦ rw new (
    ground (arith, has-put c ds d.name, equal_iff d.name c.name, equal_iff c.name d.name),
    put-HasUniqueNames c ds u.1,
  )
]

pub has-remove_expired :
    (now : ℤ) (jar : List Cookie) (n : Bytes)
    → has jar n ≡ false
    → has (remove_expired now jar) n ≡ false
unfolding has remove_expired
has-remove_expired now [] n h = refl
has-remove_expired now (c ∷ cs) n h = ground (arith, has-remove_expired now cs n)

get_missing : (jar : List Cookie) (n : Bytes) → has jar n ≡ false → get jar n ≡ session [] []
unfolding get has
get_missing [] n h = refl
get_missing (c ∷ cs) n h = ground (arith, get_missing cs n)

-- In a jar that holds no name twice, a name gives after the removal of the expired cookies what
-- it gave before, or the empty cookie if that has expired.
pub get-remove_expired :
    (now : ℤ) (jar : List Cookie) (n : Bytes)
    → HasUniqueNames jar
    → get (remove_expired now jar) n
      ≡ (if is_expired now (get jar n) then session [] [] else get jar n)
unfolding get remove_expired HasUniqueNames is_expired
get-remove_expired now [] n u = refl
get-remove_expired now (c ∷ cs) n u = ground (
  arith,
  get-remove_expired now cs n u.1,
  equal_iff c.name n,
  has-remove_expired now cs n,
  get_missing (remove_expired now cs) n,
)

-- The text is one token, with no blanks to trim.
unfoldable pub IsPlain : Bytes → Type 0
IsPlain = All (λ c. ((c == b';') ≡ false) × (is_blank c ≡ false))

lines-plain : (c : ℕ) (s : Bytes) → IsPlain (c ∷ s) → lines b';' (c ∷ s) ≡ (c ∷ s) ∷ []
unfolding lines first_line IsPlain
lines-plain c [] h = rw (h.0.0) refl
lines-plain c (d ∷ s) h = rw (h.0.0, lines-plain d s h.1) refl

trim_end-plain : (s : Bytes) → IsPlain s → trim_end s ≡ s
unfolding trim_end keep_blank IsPlain
trim_end-plain [] h = refl
trim_end-plain (c ∷ []) h = rw (h.0.1) refl
trim_end-plain (c ∷ d ∷ s) h = rw (trim_end-plain (d ∷ s) h.1) refl

trim-plain : (s : Bytes) → IsPlain s → trim s ≡ s
unfolding trim trim_start IsPlain
trim-plain [] h = refl
trim-plain (c ∷ s) h = rw (h.0.1) (trim_end-plain (c ∷ s) h)

split_pair-append :
    (name value : Bytes) → Free b'=' name → split_pair (name ++ b'=' ∷ value) ≡ some (name, value)
unfolding split_pair cut
split_pair-append name value f =
    rw
      (
        find_byte b'=' name value f,
        take-length name (b'=' ∷ value),
        drop-length-suc name value b'=',
      )
      refl

lines-pair :
    (name value : Bytes)
    → IsPlain (name ++ b'=' ∷ value)
    → lines b';' (name ++ b'=' ∷ value) ≡ (name ++ b'=' ∷ value) ∷ []
lines-pair [] value h = lines-plain b'=' value h
lines-pair (c ∷ name) value h = lines-plain c (name ++ b'=' ∷ value) h

session_kept :
    (c : Cookie) (later : ℤ)
    → c.expiry_time ≡ pos 0
    → (if is_expired later c then session [] [] else c) ≡ c
unfolding is_expired
session_kept c later e = ground arith

get-session :
    (c : Cookie) (jar : List Cookie) (later : ℤ)
    → c.expiry_time ≡ pos 0
    → HasUniqueNames jar
    → get (remove_expired later (put c jar)) c.name ≡ c
get-session c jar later e u =
    get-remove_expired later (put c jar) c.name (put-HasUniqueNames c jar u)
    ∙ rw (get-put c jar c.name, equal_refl c.name) (session_kept c later e)

module _ (now : ℤ) (read_date : Bytes → Option ℤ) where
  read_header-plain :
      (name value : Bytes)
      → Free b'=' name
      → IsPlain (name ++ b'=' ∷ value)
      → read_header now read_date (name ++ b'=' ∷ value) ≡ ok (some (session name value))
  unfolding read_header with_tokens named attributes
  read_header-plain name value f h =
      rw (lines-pair name value h)
        (rw (trim-plain (name ++ b'=' ∷ value) h, split_pair-append name value f) refl)

  -- After a Set-Cookie header with a name and a value, without blanks and attributes, the name
  -- gives the value as a session cookie and every other name what it gave before.
  pub get-update :
      (name value : Bytes) (jar : List Cookie) (n : Bytes)
      → Free b'=' name
      → IsPlain (name ++ b'=' ∷ value)
      → (update now read_date
            (record { is_set_cookie = true; value = name ++ b'=' ∷ value } ∷ [])
            jar
          >>= λ after. ok (get after n))
        ≡ ok (if equal name n then session name value else get jar n)
  unfolding update store
  get-update name value jar n f h =
      rw (read_header-plain name value f h) (ap ok (get-put (session name value) jar n))

  store-HasUniqueNames :
      (c : Option Cookie) (jar : List Cookie) → HasUniqueNames jar → HasUniqueNames (store c jar)
  unfolding store
  store-HasUniqueNames none jar u = u
  store-HasUniqueNames (some c) jar u = put-HasUniqueNames c jar u

  -- A cookie that an Expires attribute with the date of the epoch is applied to becomes a session
  -- cookie, which is got back unchanged after the removal of expired cookies at any time, if the
  -- jar holds no name twice.
  pub get-epoch :
      (date : Bytes) (c : Cookie) (jar : List Cookie) (later : ℤ)
      → read_date date ≡ some (pos 0)
      → HasUniqueNames jar
      → (attribute now read_date (some (codes "Expires", date)) c >>= λ d.
          ok (get (remove_expired later (put d jar)) c.name))
        ≡ ok (record c { expiry_time = pos 0 })
  unfolding attribute set_expires to_lower equal ◌*ℤ◌ int64
  get-epoch date c jar later h u =
      rw h (ap ok (get-session (record c { expiry_time = pos 0 }) jar later refl u))

-- What `update` leaves, if it returns.
unfoldable pub Holds : (List Cookie → Type 0) → Result (List Cookie) → Type 0
Holds P (ok jar) = P jar
Holds P (err e) = Unit

Holds-bind :
    {A : Type 0} (P : List Cookie → Type 0) (r : Result A) (k : A → Result (List Cookie))
    → ((a : A) → Holds P (k a))
    → Holds P (r >>= k)
unfolding Holds
Holds-bind P (ok a) k h = h a
Holds-bind P (err e) k h = tt

-- An update that returns leaves no name twice in a jar that held none twice.
pub update-HasUniqueNames :
    (now : ℤ) (read_date : Bytes → Option ℤ) (hs : List Header) (jar : List Cookie)
    → HasUniqueNames jar
    → Holds HasUniqueNames (update now read_date hs jar)
unfolding update Holds
update-HasUniqueNames now read_date [] jar u = u
update-HasUniqueNames now read_date (h ∷ hs) jar u = elim (Bool-cases h.is_set_cookie) [
  | inl set ↦ rw set (
      Holds-bind HasUniqueNames (read_header now read_date h.value) _ λ c.
        update-HasUniqueNames now read_date hs (store c jar)
          (store-HasUniqueNames now read_date c jar u))
  | inr unset ↦ rw unset (update-HasUniqueNames now read_date hs jar u)
]
