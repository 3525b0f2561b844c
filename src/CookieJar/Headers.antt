-- ===== src/CookieJar/Headers.antt =====
-- What `update` reads out of one `Set-Cookie` header. Dates are read by std::get_time and `timegm`,
-- which are parameters.
use libtd.Base.{
  ℕ, suc, ◌+◌, Bool, ◌&&◌, ◌||◌, leb, ◌==◌, if◌then◌else◌, Option, none, some, List, [], ◌∷◌, map,
  take, drop, Result, ok, ◌>>=◌,
}
use libtd.Base.Int.{ℤ, pos, int32_limit, ◌+ℤ◌, ◌*ℤ◌}
use libtd.Text.{Bytes, codes, equal}
use libtd.Text.Search.{find}
use libtd.Text.Decimal.{from_chars}
use libtd.Parsing.Numbers.{int64}

-- `expiry_time` counts nanoseconds; 0 marks a session cookie.
pub record Cookie : Type 0 where
  pub name : Bytes
  pub value : Bytes
  pub expiry_time : ℤ

abbrev pub session : Bytes → Bytes → Cookie
session name value = record { name = name; value = value; expiry_time = pos 0 }

unfoldable pub is_blank : ℕ → Bool
is_blank c = c == b' ' || c == 9

unfoldable pub trim_start : Bytes → Bytes
unfolding is_blank
trim_start [] = []
trim_start (c ∷ s) = if is_blank c then trim_start s else c ∷ s

-- A blank goes if nothing but blanks follows.
unfoldable pub keep_blank : ℕ → Bytes → Bytes
unfolding is_blank
keep_blank c [] = if is_blank c then [] else c ∷ []
keep_blank c (d ∷ s) = c ∷ d ∷ s

unfoldable pub trim_end : Bytes → Bytes
unfolding keep_blank
trim_end [] = []
trim_end (c ∷ s) = keep_blank c (trim_end s)

unfoldable pub trim : Bytes → Bytes
unfolding trim_start trim_end
trim s = trim_end (trim_start s)

unfoldable pub first_line : ℕ → List Bytes → List Bytes
first_line c [] = (c ∷ []) ∷ []
first_line c (p ∷ ps) = (c ∷ p) ∷ ps

-- The tokens that std::getline gives one by one; nothing follows a separator at the end.
unfoldable pub lines : ℕ → Bytes → List Bytes
unfolding first_line
lines sep [] = []
lines sep (c ∷ s) = if c == sep then [] ∷ lines sep s else first_line c (lines sep s)

unfoldable pub cut : Bytes → Option ℕ → Option (Bytes × Bytes)
cut s none = none
cut s (some n) = some (take n s, drop (suc n) s)

-- The parts on either side of the first `=`.
unfoldable pub split_pair : Bytes → Option (Bytes × Bytes)
unfolding cut find
split_pair s = cut s (find (b'=' ∷ []) s)

-- `tolower`, in the C locale
unfoldable pub to_lower : ℕ → ℕ
to_lower c = if leb b'A' c && leb c b'Z' then c + 32 else c

unfoldable pub is_space : ℕ → Bool
is_space c = c == b' ' || (leb 9 c && leb c 13)

unfoldable pub skip_space : Bytes → Bytes
unfolding is_space
skip_space [] = []
skip_space (c ∷ s) = if is_space c then skip_space s else c ∷ s

after_plus : ℕ → Bytes → Option ℤ
after_plus limit [] = none
after_plus limit (c ∷ s) = if c == b'-' then none else from_chars limit (c ∷ s)

-- A number with a sign or without, in a type with values from -limit up to limit - 1.
unfoldable pub signed_int : ℕ → Bytes → Option ℤ
unfolding after_plus
signed_int limit [] = none
signed_int limit (c ∷ s) = if c == b'+' then after_plus limit s else from_chars limit (c ∷ s)

-- `std::stoi`; `none` where it throws.
unfoldable pub stoi : Bytes → Option ℤ
unfolding skip_space signed_int
stoi s = signed_int int32_limit (skip_space s)

abbrev second : ℤ
second = pos 1000000000

-- The system clock's reading, in nanoseconds, and the reader of dates, which gives seconds.
module _ (now : ℤ) (read_date : Bytes → Option ℤ) where
  unfoldable pub set_max_age : Option ℤ → Cookie → Result Cookie
  unfolding ◌+ℤ◌ ◌*ℤ◌
  set_max_age none c = ok c
  set_max_age (some s) c = do t ← int64 (now +ℤ s *ℤ second); ok (record c { expiry_time = t })

  unfoldable pub set_expires : Option ℤ → Cookie → Result Cookie
  unfolding ◌*ℤ◌
  set_expires none c = ok c
  set_expires (some s) c = do t ← int64 (s *ℤ second); ok (record c { expiry_time = t })

  unfoldable pub attribute : Option (Bytes × Bytes) → Cookie → Result Cookie
  unfolding set_max_age set_expires to_lower stoi equal
  attribute none c = ok c
  attribute (some (attr_name, attr_value)) c =
      let name = map to_lower attr_name in
      if equal name (codes "max-age")
      then set_max_age (stoi attr_value) c
      else if equal name (codes "expires")
      then set_expires (read_date attr_value) c
      else ok c

  -- An attribute that is blank, or has no `=`, is passed over.
  unfoldable pub attributes : List Bytes → Cookie → Result Cookie
  unfolding attribute trim split_pair
  attributes [] c = ok c
  attributes (t ∷ ts) c = do c' ← attribute (split_pair (trim t)) c; attributes ts c'

  unfoldable pub named : Option (Bytes × Bytes) → List Bytes → Result (Option Cookie)
  unfolding attributes
  named none ts = ok none
  named (some (name, value)) ts = do c ← attributes ts (session name value); ok (some c)

  unfoldable pub with_tokens : List Bytes → Result (Option Cookie)
  unfolding named
  with_tokens [] = ok none
  with_tokens (t ∷ ts) = named (split_pair (trim t)) ts

  -- The cookie of a header; `none` if the header is malformed.
  unfoldable pub read_header : Bytes → Result (Option Cookie)
  unfolding with_tokens lines
  read_header s = with_tokens (lines b';' s)
