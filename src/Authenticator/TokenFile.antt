-- ===== src/Authenticator/TokenFile.antt =====
-- The file of the token read back, and the account that is found.
use libtd.Base.{
  Bool, true, false, if◌then◌else◌, String, Option, none, some, List, [], ◌∷◌, map, All, ◌≡◌, refl,
  arith, ok, or_throw, runtime_error,
}
use libtd.Base.Int.{ℤ, pos, negsuc, ◌*ℤ◌, IsInt32}
use libtd.Text.{Bytes, equal}
use libtd.Json.{JsonLib, member}
use libtd.Parsing.Numbers.{int64}
use libtd.Parsing.CandleLine.{to_seconds}
use libtd.Authenticator.Token.{AuthToken, read_token, load, token_json, save}
use libtd.Authenticator.Accounts.{find_account, account_in}

-- A whole number of seconds, in nanoseconds.
abbrev pub in_seconds : AuthToken → AuthToken
in_seconds t = record t { expiry_time = to_seconds t.expiry_time *ℤ pos 1000000000 }

int64-seconds : (a : ℤ) → IsInt32 a → int64 (a *ℤ pos 1000000000) ≡ ok (a *ℤ pos 1000000000)
unfolding int64 ◌*ℤ◌
int64-seconds (pos n) h = ground arith
int64-seconds (negsuc n) h = ground arith

module _ {D : Type 0} (J : JsonLib D) where
  read_token-token_json :
      (t : AuthToken)
      → IsInt32 (to_seconds t.expiry_time)
      → read_token J (token_json J t) ≡ ok (in_seconds t)
  unfolding read_token token_json
  read_token-token_json t h =
      rw
        (
          J.value_string-object _ "access_token" [],
          J.value_string-object _ "id_token" [],
          J.value_int-object _ "expiry_time" (pos 0),
          J.get_string-of_string t.access_token,
          J.get_string-of_string t.id_token,
          J.get_int-of_int (to_seconds t.expiry_time) h,
          int64-seconds (to_seconds t.expiry_time) h,
        )
        refl

  -- What save writes, load reads back but for the fraction of the second in which the token
  -- expires, if the seconds fit an int and the JSON library parses what it prints.
  pub load-save_token :
      (t : AuthToken)
      → IsInt32 (to_seconds t.expiry_time)
      → J.parse (J.pretty (token_json J t)) ≡ ok (token_json J t)
      → load J (some (save J t)) ≡ ok (in_seconds t)
  unfolding load save
  load-save_token t h p = rw p (read_token-token_json t h)

  -- An account: what it is called, and all of its members.
  abbrev pub IsAccount : Bytes × List (String × J.Json) → Type 0
  IsAccount a = member "account" (a.1) ≡ some (J.of_string (a.0))

  abbrev pub first_named : Bytes → List (Bytes × List (String × J.Json)) → Option J.Json
  first_named account_id [] = none
  first_named account_id (a ∷ more) =
      if equal (a.0) account_id then some (J.object (a.1)) else first_named account_id more

  or_throw_first :
      (b : Bool) (x : J.Json) (more : Option J.Json)
      → (if b then ok x else or_throw more runtime_error)
        ≡ or_throw (if b then some x else more) runtime_error
  or_throw_first true x more = refl
  or_throw_first false x more = refl

  find_account-first_named :
      (account_id : Bytes) (accounts : List (Bytes × List (String × J.Json)))
      → All IsAccount accounts
      → find_account J account_id (map (λ a. J.object (a.1)) accounts)
        ≡ or_throw (first_named account_id accounts) runtime_error
  unfolding find_account
  find_account-first_named account_id [] h = refl
  find_account-first_named account_id (a ∷ more) h =
      rw
        (
          J.index-object (a.1) "account",
          h.0,
          J.equals_string-of_string (a.0) account_id,
          find_account-first_named account_id more h.1,
        )
        (or_throw_first (equal (a.0) account_id) (J.object (a.1)) (first_named account_id more))

  -- Among the accounts of an answer, of which each has its identifier as a string, the first with
  -- the identifier asked for is selected; without one, a runtime error is thrown.
  pub account_in-first_named :
      (account_id : Bytes) (accounts : List (Bytes × List (String × J.Json)))
      → All IsAccount accounts
      → account_in J account_id
          (J.object (("results", J.of_array (map (λ a. J.object (a.1)) accounts)) ∷ []))
        ≡ or_throw (first_named account_id accounts) runtime_error
  unfolding account_in
  account_in-first_named account_id accounts h =
      rw (J.subscript-object _ "results", J.elements-of_array (map (λ a. J.object (a.1)) accounts))
        (find_account-first_named account_id accounts h)
