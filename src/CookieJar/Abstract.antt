-- ===== src/CookieJar/Abstract.antt =====
-- The jar as a map from names to cookies, which the list of its cookies implements.
use libtd.Base.{
  if◌then◌else◌, Option, none, some, List, [], ◌∷◌, ◌≡◌, refl, ◌∙◌, arith, Result, ok, err, ◌>>=◌,
  Bool-cases, inl, inr,
}
use libtd.Base.Int.{ℤ}
use libtd.Text.{Bytes, equal, equal_iff}
use libtd.CookieJar.Headers.{Cookie, read_header}
use libtd.CookieJar.Jar.{Header, put, store, update}

abbrev pub CookieMap : Type 0
CookieMap = Bytes → Option Cookie

-- The cookie that a list holds under a name.
unfoldable pub lookup : List Cookie → CookieMap
unfolding equal
lookup [] n = none
lookup (c ∷ cs) n = let rest = lookup cs n in if equal c.name n then some c else rest

abbrev map_store : Option Cookie → CookieMap → CookieMap
map_store none m n = m n
map_store (some c) m n = let rest = m n in if equal c.name n then some c else rest

-- What the headers of a response make of a map.
pub map_update : ℤ → (Bytes → Option ℤ) → List Header → CookieMap → Result CookieMap
map_update now read_date [] m = ok m
map_update now read_date (h ∷ hs) m =
    let rest = map_update now read_date hs in
    if h.is_set_cookie
    then (do c ← read_header now read_date h.value; rest (map_store c m))
    else rest m

-- Both throw the same, or the list holds what the map says.
unfoldable pub Implements : Result (List Cookie) → Result CookieMap → Type 0
Implements (ok jar) (ok m) = (n : Bytes) → lookup jar n ≡ m n
Implements (err e) (err f) = e ≡ f
Implements _ _ = ⊥

lookup-put :
    (c : Cookie) (jar : List Cookie) (n : Bytes)
    → lookup (put c jar) n ≡ (if equal c.name n then some c else lookup jar n)
unfolding lookup put
lookup-put c [] n = refl
lookup-put c (d ∷ ds) n =
    ground
      (arith, lookup-put c ds n, equal_iff d.name c.name, equal_iff d.name n, equal_iff c.name n)

lookup-store :
    (c : Option Cookie) (jar : List Cookie) (m : CookieMap)
    → ((n : Bytes) → lookup jar n ≡ m n)
    → (n : Bytes) → lookup (store c jar) n ≡ map_store c m n
unfolding store
lookup-store none jar m h n = h n
lookup-store (some c) jar m h n = lookup-put c jar n ∙ rw (h n) refl

Implements-bind :
    {A : Type 0} (r : Result A) (f : A → Result (List Cookie)) (g : A → Result CookieMap)
    → ((a : A) → Implements (f a) (g a))
    → Implements (r >>= f) (r >>= g)
unfolding Implements
Implements-bind (err e) f g h = refl
Implements-bind (ok a) f g h = h a

-- If the list of cookies holds what a map from names to cookies says, update throws the exception
-- that the specification on the map throws, or leaves under every name the cookie that the
-- specification gives.
pub update-map_update :
    (now : ℤ) (read_date : Bytes → Option ℤ) (hs : List Header) (jar : List Cookie) (m : CookieMap)
    → ((n : Bytes) → lookup jar n ≡ m n)
    → Implements (update now read_date hs jar) (map_update now read_date hs m)
unfolding update map_update Implements
update-map_update now read_date [] jar m h = h
update-map_update now read_date (k ∷ hs) jar m h = elim (Bool-cases k.is_set_cookie) [
  | inl set ↦ rw set (
      Implements-bind (read_header now read_date k.value) _ _ λ c.
        update-map_update now read_date hs (store c jar) (map_store c m) (lookup-store c jar m h))
  | inr unset ↦ rw unset (update-map_update now read_date hs jar m h)
]
