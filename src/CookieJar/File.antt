-- ===== src/CookieJar/File.antt =====
-- The file that the jar is kept in: the constructor, which reads it, and `save`.
use libtd.Base.{ℕ, if◌then◌else◌, Option, none, some, List, [], ◌∷◌, ◌++◌, Result, ok, ◌>>=◌}
use libtd.Base.Int.{ℤ, pos, ◌*ℤ◌, int64_limit}
use libtd.Text.{Bytes}
use libtd.Text.Decimal.{show_ℤ}
use libtd.Parsing.Numbers.{int64}
use libtd.Parsing.CandleLine.{to_seconds}
use libtd.CookieJar.Headers.{Cookie, is_space, skip_space, signed_int, lines}
use libtd.CookieJar.Jar.{put}

push : ℕ → Bytes × Bytes → Bytes × Bytes
push c (w, s) = (c ∷ w, s)

-- A text up to its first white space, and what follows.
unfoldable pub span_word : Bytes → Bytes × Bytes
unfolding is_space push
span_word [] = ([], [])
span_word (c ∷ s) = let rest = push c (span_word s) in if is_space c then ([], c ∷ s) else rest

-- `>>` into a string: the word is empty where the stream fails.
unfoldable pub read_word : Bytes → Bytes × Bytes
unfolding skip_space span_word
read_word s = span_word (skip_space s)

-- A stream that has failed reads nothing more.
unfoldable pub read_number : Bytes → Bytes → Option ℤ
unfolding signed_int skip_space
read_number [] s = none
read_number (c ∷ value) s = signed_int int64_limit (skip_space s)

-- `expiry_time_val == 0`, or a line without a number, stands for a session cookie.
unfoldable pub from_time_t : Option ℤ → Result ℤ
unfolding ◌*ℤ◌
from_time_t none = ok (pos 0)
from_time_t (some t) = int64 (t *ℤ pos 1000000000)

-- A line of the file.
unfoldable pub read_line : Bytes → Result Cookie
unfolding read_word read_number from_time_t
read_line s = do
  let name = read_word s
  let value = read_word name.1
  t ← from_time_t (read_number value.0 value.1)
  ok (record { name = name.0; value = value.0; expiry_time = t })

unfoldable pub read_lines : List Bytes → List Cookie → Result (List Cookie)
unfolding read_line put
read_lines [] jar = ok jar
read_lines (l ∷ ls) jar = do c ← read_line l; read_lines ls (put c jar)

-- `cookiejar(file_name)`, from the text of the file, if there is one.
unfoldable pub load : Option Bytes → Result (List Cookie)
unfolding read_lines lines
load none = ok []
load (some text) = read_lines (lines 10 text) []

unfoldable pub line_of : Cookie → Bytes
unfolding show_ℤ to_seconds
line_of c = c.name ++ (b' ' ∷ c.value ++ (b' ' ∷ show_ℤ (to_seconds c.expiry_time)))

unfoldable pub save_all : List Cookie → Bytes
unfolding line_of
save_all [] = []
save_all (c ∷ cs) = line_of c ++ 10 ∷ save_all cs

-- `save`: the text of the file. `walk` is the order in which the map is walked.
unfoldable pub save : (List Cookie → List Cookie) → List Cookie → Bytes
unfolding save_all
save walk jar = save_all (walk jar)
