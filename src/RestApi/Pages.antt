-- ===== src/RestApi/Pages.antt =====
-- What is read out of the page behind the login: `extract_login_id` and `extract_account_id`.
use libtd.Base.{
  ◌+◌, [], ◌∷◌, ◌++◌, take, drop, length, length-append, ◌≡◌, sym, ap, Result, ok, ◌>>=◌, or_throw,
  runtime_error,
}
use mathlib.Core.List.{append_assoc}
use libtd.Text.{Bytes, codes}
use libtd.Text.Split.{Free}
use libtd.HttpClient.Boost.{BoostLib, Response}
use libtd.HttpClient.Client.{get_http_body}
use libtd.Text.Search.{find, find-append, find_byte, StartsNowhere, take-length, drop-length}

abbrev pub login_key : Bytes
login_key = codes "id=\"hfLoginID\" value=\""

abbrev pub account_key : Bytes
account_key = codes "id=\"hfAccountID\" value=\""

-- The text from a position to the next quote.
until_quote : Bytes → Result Bytes
until_quote s = do end ← or_throw (find (b'"' ∷ []) s) runtime_error; ok (take end s)

-- The two functions but for their keys.
unfoldable pub extract_value : Bytes → Bytes → Result Bytes
unfolding until_quote
extract_value key body = do
  pos ← or_throw (find key body) runtime_error
  until_quote (drop (pos + length key) body)

unfoldable pub extract_login_id : Bytes → Result Bytes
unfolding extract_value
extract_login_id body = extract_value login_key body

unfoldable pub extract_account_id : Bytes → Result Bytes
unfolding extract_value
extract_account_id body = extract_value account_key body

until_quote-append :
    (value s : Bytes) → Free b'"' value → until_quote (value ++ b'"' ∷ s) ≡ ok value
unfolding until_quote
until_quote-append value s f = rw (find_byte b'"' value s f) (ap ok (take-length value (b'"' ∷ s)))

drop-key : (before key s : Bytes) → drop (length before + length key) (before ++ (key ++ s)) ≡ s
drop-key before key s =
    rw (sym (length-append before key), sym (append_assoc before key s))
      (drop-length (before ++ key) s)

-- The value of the first element with the key is read up to its closing quote, whatever stands
-- before and behind it, if the value holds no quote.
pub extract_value_lem :
    (key before value behind : Bytes)
    → StartsNowhere key before (key ++ (value ++ b'"' ∷ behind))
    → Free b'"' value
    → extract_value key (before ++ (key ++ (value ++ b'"' ∷ behind))) ≡ ok value
unfolding extract_value
extract_value_lem key before value behind h f =
    rw
      (
        find-append key before (value ++ b'"' ∷ behind) h,
        drop-key before key (value ++ b'"' ∷ behind),
      )
      (until_quote-append value behind f)

module _ (B : BoostLib) where
  unfoldable pub extract_ots : Bytes → Result Bytes
  extract_ots s = do found_parameter ← B.ots_parameter s; or_throw found_parameter runtime_error

  -- `ots`, the login identifier, and the account identifier.
  unfoldable pub read_page : Bytes → Response (B.Fields) → Result (Bytes × Bytes × Bytes)
  unfolding extract_ots get_http_body
  read_page t response = do
    ots ← extract_ots t
    body ← get_http_body B response
    login_id ← extract_login_id body
    account ← extract_account_id body
    ok (ots, login_id, account)
