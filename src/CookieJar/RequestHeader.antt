-- ===== src/CookieJar/RequestHeader.antt =====
-- The header that `apply` puts into a request.
use libtd.Base.{
  Bool, arith, Bool-cases, not, ◌||◌, inl, inr, if◌then◌else◌, ℕ, Option, none, some, List, [], ◌∷◌,
  ◌++◌, ◌≡◌, refl, sym, ap, ◌∙◌,
}
use libtd.Base.Int.{ℤ, pos, eqb_ℤ, ltb_ℤ}
use mathlib.Core.List.{append-nil, append_assoc}
use libtd.Text.{Bytes, codes}
use libtd.CookieJar.Headers.{Cookie}
use libtd.CookieJar.Jar.{
  if_not_empty, separator, pair_text, is_expired, remove_expired, apply, header_loop,
}

-- A cookie is sent if it has no time of expiry, or one that is still to come.
abbrev pub is_live : ℤ → Cookie → Bool
is_live now c = eqb_ℤ c.expiry_time (pos 0) || ltb_ℤ now c.expiry_time

abbrev pub live_cookies : ℤ → List Cookie → List Cookie
live_cookies now [] = []
live_cookies now (c ∷ cs) = if is_live now c then c ∷ live_cookies now cs else live_cookies now cs

live-is_expired : (now : ℤ) (c : Cookie) → is_live now c ≡ not (is_expired now c)
unfolding is_expired
live-is_expired now c = ground arith

remove_expired-live : (now : ℤ) (jar : List Cookie) → remove_expired now jar ≡ live_cookies now jar
unfolding remove_expired
remove_expired-live now [] = refl
remove_expired-live now (c ∷ cs) = elim (Bool-cases (is_expired now c)) [
  | inl old ↦ rw (live-is_expired now c, old) (remove_expired-live now cs)
  | inr live ↦ rw (live-is_expired now c, live) (ap (◌∷◌ c) (remove_expired-live now cs))
]

-- A cookie in the header.
abbrev shown : Cookie → Bytes
shown c = c.name ++ b'=' ∷ c.value

-- The cookies behind the first, as the header shows them.
further : List Cookie → Bytes
further [] = []
further (c ∷ cs) = codes "; " ++ (shown c ++ further cs)

-- The `Cookie` header for some cookies in an order.
pub cookie_header : List Cookie → Option Bytes
unfolding further
cookie_header [] = none
cookie_header (c ∷ cs) = some (shown c ++ further cs)

header_loop-further :
    (x : ℕ) (xs : Bytes) (cs : List Cookie) → header_loop (x ∷ xs) cs ≡ (x ∷ xs) ++ further cs
unfolding header_loop separator further
header_loop-further x xs [] = sym (append-nil (x ∷ xs))
header_loop-further x xs (c ∷ cs) =
    header_loop-further x ((xs ++ codes "; ") ++ pair_text c) cs
    ∙ append_assoc ((x ∷ xs) ++ codes "; ") (pair_text c) (further cs)
    ∙ append_assoc (x ∷ xs) (codes "; ") (pair_text c ++ further cs)

header_loop-pair :
    (name value : Bytes) (cs : List Cookie)
    → header_loop (name ++ b'=' ∷ value) cs ≡ (name ++ b'=' ∷ value) ++ further cs
header_loop-pair [] value cs = header_loop-further b'=' value cs
header_loop-pair (x ∷ name) value cs = header_loop-further x (name ++ b'=' ∷ value) cs

header_loop-cookies :
    (c : Cookie) (cs : List Cookie) → header_loop [] (c ∷ cs) ≡ pair_text c ++ further cs
unfolding header_loop separator pair_text
header_loop-cookies c cs = header_loop-pair c.name c.value cs

if_not_empty-pair :
    (name value s : Bytes)
    → if_not_empty ((name ++ b'=' ∷ value) ++ s) ≡ some ((name ++ b'=' ∷ value) ++ s)
unfolding if_not_empty
if_not_empty-pair [] value s = refl
if_not_empty-pair (x ∷ name) value s = refl

header-cookies : (cs : List Cookie) → if_not_empty (header_loop [] cs) ≡ cookie_header cs
unfolding cookie_header if_not_empty header_loop pair_text
header-cookies [] = refl
header-cookies (c ∷ cs) =
    ap if_not_empty (header_loop-cookies c cs) ∙ if_not_empty-pair c.name c.value (further cs)

-- apply keeps the cookies that have no time of expiry or one that is still to come, and gives
-- them, in the order in which the map is walked, as name=value with semicolons between them, and
-- no header if none is left.
pub apply_lem :
    (walk : List Cookie → List Cookie) (now : ℤ) (jar : List Cookie)
    → apply walk now jar ≡ (live_cookies now jar, cookie_header (walk (live_cookies now jar)))
unfolding apply
apply_lem walk now jar =
    rw (remove_expired-live now jar)
      (ap (λ h. (live_cookies now jar, h)) (header-cookies (walk (live_cookies now jar))))
