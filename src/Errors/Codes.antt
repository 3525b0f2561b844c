-- ===== src/Errors/Codes.antt =====
-- The enumeration `api_error`, its category and its messages.
use libtd.Base.{ℕ, String, Option, none, some, ◌≡◌, ◌≢◌, refl, ◌↔◌, arith, if◌then◌else◌, ◌==◌}
use libtd.Base.Int.{ℤ, pos, negsuc}
use mathlib.Core.Option as Options

pub data ApiError : Type 0 where
  ok extract_ots find_login_id parse_login_id login : ApiError
  http_post json_parse session_status max_depth : ApiError

-- `static_cast<int>`
unfoldable pub to_int : ApiError → ℕ
to_int ApiError.ok = 0
to_int extract_ots = 1
to_int find_login_id = 2
to_int parse_login_id = 3
to_int login = 4
to_int http_post = 5
to_int json_parse = 6
to_int session_status = 7
to_int max_depth = 8

-- The label of a `switch` over the enumeration that a value of its type, which any int is, goes to;
-- `none` is the default.
unfoldable pub label : ℤ → Option ApiError
label (negsuc n) = none
label (pos n) =
    if n == 0
    then some ApiError.ok
    else if n == 1
    then some extract_ots
    else if n == 2
    then some find_login_id
    else if n == 3
    then some parse_login_id
    else if n == 4
    then some login
    else if n == 5
    then some http_post
    else if n == 6
    then some json_parse
    else if n == 7
    then some session_status
    else if n == 8
    then some max_depth
    else none

unfoldable pub name : ApiError → String
name ApiError.ok = "ok"
name extract_ots = "extract_ots"
name find_login_id = "find_login_id"
name parse_login_id = "parse_login_id"
name login = "login"
name http_post = "http_post"
name json_parse = "json_parse"
name session_status = "session_status"
name max_depth = "max_depth"

-- `api_error_category::message`; `none` stands for a call of `abort`.
unfoldable pub message : ℤ → Option String
unfolding label name
message ev = Options.map name (label ev)

unfoldable pub description : Option ApiError → String
description (some ApiError.ok) = "Success"
description (some extract_ots) = "Failed to extract OTS"
description (some find_login_id) = "Login ID not found"
description (some parse_login_id) = "Could not parse Login ID"
description (some login) = "Login error"
description (some http_post) = "HTTP POST failed"
description (some json_parse) = "JSON parsing failed"
description (some session_status) = "Session status invalid"
description (some max_depth) = "Max depth exceeded"
description none = "Unknown error"

unfoldable pub api_error_message : ℤ → String
unfolding label description
api_error_message e = description (label e)

-- The enumerators go to their own labels.
pub label-to_int : (e : ApiError) → label (pos (to_int e)) ≡ some e
unfolding label to_int
label-to_int ApiError.ok = refl
label-to_int extract_ots = refl
label-to_int find_login_id = refl
label-to_int parse_login_id = refl
label-to_int login = refl
label-to_int http_post = refl
label-to_int json_parse = refl
label-to_int session_status = refl
label-to_int max_depth = refl

-- No other value goes to a label.
pub label-eq-some : (v : ℤ) (e : ApiError) → label v ≡ some e → v ≡ pos (to_int e)
unfolding label to_int
label-eq-some (negsuc n) e h = absurd (ground arith)
label-eq-some (pos n) ApiError.ok h = ground arith
label-eq-some (pos n) extract_ots h = ground arith
label-eq-some (pos n) find_login_id h = ground arith
label-eq-some (pos n) parse_login_id h = ground arith
label-eq-some (pos n) login h = ground arith
label-eq-some (pos n) http_post h = ground arith
label-eq-some (pos n) json_parse h = ground arith
label-eq-some (pos n) session_status h = ground arith
label-eq-some (pos n) max_depth h = ground arith

pub message-to_int : (e : ApiError) → message (pos (to_int e)) ≡ some (name e)
unfolding message
message-to_int e = rw (label-to_int e) refl

aborts :
    (v : ℤ) (found : Option ApiError)
    → label v ≡ found
    → ((e : ApiError) → v ≢ pos (to_int e))
    → Options.map name found ≡ none
aborts v none h other = refl
aborts v (some e) h other = absurd (other e (label-eq-some v e h))

-- The category aborts at every value but those of the nine enumerators.
pub message-none : (v : ℤ) → (message v ≡ none) ↔ ((e : ApiError) → v ≢ pos (to_int e))
unfolding message
message-none v = (λ h e q. cc (message-to_int e), λ other. aborts v (label v) refl other)
