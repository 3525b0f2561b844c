-- ===== src/CookieJar/Storage.antt =====
-- The file of a jar read back.
use libtd.Base.{
  ℕ, false, ◌||◌, ◌==◌, some, List, [], ◌∷◌, ◌++◌, map, All, All-append, ◌≡◌, refl, ap, ◌∙◌, arith,
  ok,
}
use mathlib.Core.List.{append-nil, append_assoc}
use libtd.Base.Int.{ℤ, pos, negsuc, ◌*ℤ◌, int64_limit, IsInt64}
use libtd.Text.{Bytes, equal_iff}
use libtd.Text.Split.{Free}
use libtd.Text.Decimal.{
  is_digit, show_ℤ, IsNumeral, show_ℤ-IsNumeral, from_chars, from_chars-show_ℤ,
}
use libtd.Parsing.Numbers.{int64}
use libtd.Parsing.CandleLine.{to_seconds}
use libtd.CookieJar.Headers.{Cookie, is_space, skip_space, signed_int, lines, first_line}
use libtd.CookieJar.Jar.{put}
use libtd.CookieJar.Lookup.{has, HasUniqueNames}
use libtd.CookieJar.File.{
  span_word, read_word, read_number, from_time_t, read_line, read_lines, load, line_of, save_all,
  save,
}

-- A text without white space.
abbrev pub IsSolid : Bytes → Type 0
IsSolid = All (λ c. is_space c ≡ false)

-- At least one byte, and no white space.
abbrev pub IsWord : Bytes → Type 0
IsWord [] = ⊥
IsWord (c ∷ s) = IsSolid (c ∷ s)

span_word-append : (w s : Bytes) → IsSolid w → span_word (w ++ b' ' ∷ s) ≡ (w, b' ' ∷ s)
unfolding span_word is_space
span_word-append [] s h = refl
span_word-append (c ∷ w) s h = ground (arith, span_word-append w s h.1)

read_word-append : (w s : Bytes) → IsWord w → read_word (w ++ b' ' ∷ s) ≡ (w, b' ' ∷ s)
unfolding read_word skip_space
read_word-append [] s h = absurd h
read_word-append (c ∷ w) s h = rw (h.0) (span_word-append (c ∷ w) s h)

read_word-blank : (s : Bytes) → read_word (b' ' ∷ s) ≡ read_word s
unfolding read_word skip_space is_space
read_word-blank s = refl

skip_space-numeral : (s : Bytes) → IsNumeral s → skip_space (b' ' ∷ s) ≡ s
unfolding skip_space is_space is_digit
skip_space-numeral [] h = refl
skip_space-numeral (c ∷ s) h = ground arith

signed_int-numeral : (limit : ℕ) (s : Bytes) → IsNumeral s → signed_int limit s ≡ from_chars limit s
unfolding signed_int is_digit from_chars
signed_int-numeral limit [] h = refl
signed_int-numeral limit (c ∷ s) h = ground arith

read_number-show_ℤ :
    (value : Bytes) (a : ℤ)
    → IsWord value
    → IsInt64 a
    → read_number value (b' ' ∷ show_ℤ a) ≡ some a
unfolding read_number
read_number-show_ℤ [] a w h = absurd w
read_number-show_ℤ (c ∷ value) a w h =
    rw
      (
        skip_space-numeral (show_ℤ a) (show_ℤ-IsNumeral a),
        signed_int-numeral int64_limit (show_ℤ a) (show_ℤ-IsNumeral a),
      )
      (from_chars-show_ℤ int64_limit a h)

to_seconds-IsInt64 : (a : ℤ) → IsInt64 a → IsInt64 (to_seconds a)
unfolding to_seconds
to_seconds-IsInt64 (pos n) h = ground arith
to_seconds-IsInt64 (negsuc n) h = ground arith

from_time_t-to_seconds :
    (a : ℤ) → IsInt64 a → from_time_t (some (to_seconds a)) ≡ ok (to_seconds a *ℤ pos 1000000000)
unfolding from_time_t to_seconds int64 ◌*ℤ◌
from_time_t-to_seconds (pos n) h = ground arith
from_time_t-to_seconds (negsuc n) h = ground arith

-- What the file can hold.
pub record IsStorable (c : Cookie) : Type 0 where
  pub name : IsWord c.name
  pub value : IsWord c.value
  pub time : IsInt64 c.expiry_time

-- The file counts the time of expiry in seconds.
abbrev pub in_seconds : Cookie → Cookie
in_seconds c = record c { expiry_time = to_seconds c.expiry_time *ℤ pos 1000000000 }

read_line-line_of : (c : Cookie) → IsStorable c → read_line (line_of c) ≡ ok (in_seconds c)
unfolding read_line line_of
read_line-line_of c h =
    rw
      (
        read_word-append c.name (c.value ++ (b' ' ∷ show_ℤ (to_seconds c.expiry_time))) h.name,
        read_word-blank (c.value ++ (b' ' ∷ show_ℤ (to_seconds c.expiry_time))),
        read_word-append c.value (show_ℤ (to_seconds c.expiry_time)) h.value,
        read_number-show_ℤ c.value (to_seconds c.expiry_time) h.value
            (to_seconds-IsInt64 c.expiry_time h.time),
        from_time_t-to_seconds c.expiry_time h.time,
      )
      refl

lines-append : (sep : ℕ) (a s : Bytes) → Free sep a → lines sep (a ++ sep ∷ s) ≡ a ∷ lines sep s
unfolding lines first_line
lines-append sep [] s h = ground arith
lines-append sep (c ∷ a) s h = rw (h.0, lines-append sep a s h.1) refl

solid-Free : (s : Bytes) → IsSolid s → Free 10 s
unfolding is_space
solid-Free [] h = tt
solid-Free (c ∷ s) h = (ground arith, solid-Free s h.1)

numeral-Free : (s : Bytes) → IsNumeral s → Free 10 s
unfolding is_digit
numeral-Free [] h = tt
numeral-Free (c ∷ s) h = (ground arith, numeral-Free s h.1)

word-IsSolid : (s : Bytes) → IsWord s → IsSolid s
word-IsSolid [] h = tt
word-IsSolid (c ∷ s) h = h

line_of-Free : (c : Cookie) → IsStorable c → Free 10 (line_of c)
unfolding line_of
line_of-Free c h =
    All-append (λ b. (b == 10) ≡ false) c.name _ (solid-Free c.name (word-IsSolid c.name h.name))
      (
        refl,
        All-append (λ b. (b == 10) ≡ false) c.value _
            (solid-Free c.value (word-IsSolid c.value h.value))
            (refl, numeral-Free _ (show_ℤ-IsNumeral (to_seconds c.expiry_time))),
      )

put_new : (c : Cookie) (jar : List Cookie) → has jar c.name ≡ false → put c jar ≡ jar ++ c ∷ []
unfolding put has
put_new c [] h = refl
put_new c (d ∷ ds) h = ground (arith, put_new c ds)

has-append : (a b : List Cookie) (n : Bytes) → has (a ++ b) n ≡ has a n || has b n
unfolding has
has-append [] b n = refl
has-append (c ∷ a) b n = ground (arith, has-append a b n)

-- No cookie of the one list has the name of a cookie of the other.
abbrev AreApart : List Cookie → List Cookie → Type 0
AreApart cs jar = All (λ c. has jar c.name ≡ false) cs

apart-append :
    (c : Cookie) (cs jar : List Cookie)
    → has cs c.name ≡ false
    → AreApart cs jar
    → AreApart cs (jar ++ in_seconds c ∷ [])
unfolding has
apart-append c [] jar h k = tt
apart-append c (d ∷ cs) jar h k = (
  rw (has-append jar (in_seconds c ∷ []) d.name)
      (ground (arith, equal_iff d.name c.name, equal_iff c.name d.name)),
  apart-append c cs jar (ground arith) k.1,
)

read_lines-save_all :
    (cs jar : List Cookie)
    → HasUniqueNames cs
    → All IsStorable cs
    → AreApart cs jar
    → read_lines (lines 10 (save_all cs)) jar ≡ ok (jar ++ map in_seconds cs)
unfolding read_lines save_all HasUniqueNames lines
read_lines-save_all [] jar u s a = rw (append-nil jar) refl
read_lines-save_all (c ∷ cs) jar u s a =
    rw (lines-append 10 (line_of c) (save_all cs) (line_of-Free c s.0), read_line-line_of c s.0)
      (ap (read_lines (lines 10 (save_all cs))) (put_new (in_seconds c) jar a.0)
        ∙ read_lines-save_all cs (jar ++ in_seconds c ∷ []) u.1 s.1 (apart-append c cs jar u.0 a.1)
        ∙ ap ok (append_assoc jar (in_seconds c ∷ []) (map in_seconds cs)))

apart_nil : (cs : List Cookie) → AreApart cs []
unfolding has
apart_nil [] = tt
apart_nil (c ∷ cs) = (refl, apart_nil cs)

-- The file that save writes for a jar is loaded as the same cookies in the same order, their
-- times of expiry cut to seconds, if no name stands twice, names and values are words without
-- white space, and the times are 64-bit integers.
pub load-save :
    (walk : List Cookie → List Cookie) (jar : List Cookie)
    → HasUniqueNames (walk jar)
    → All IsStorable (walk jar)
    → load (some (save walk jar)) ≡ ok (map in_seconds (walk jar))
unfolding load save
load-save walk jar u s = read_lines-save_all (walk jar) [] u s (apart_nil (walk jar))
