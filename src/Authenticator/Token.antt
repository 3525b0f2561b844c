-- ===== src/Authenticator/Token.antt =====
-- `auth_token`: the token of a session, and the file that it is kept in.
use libtd.Base.{Option, none, some, [], ◌∷◌, Result, ok, ◌>>=◌}
use libtd.Base.Int.{ℤ, pos, ◌*ℤ◌, ◌+ℤ◌}
use libtd.Text.{Bytes}
use libtd.Json.{JsonLib}
use libtd.Parsing.Numbers.{int64}
use libtd.Parsing.CandleLine.{to_seconds}

-- `expiry_time` counts nanoseconds.
pub record AuthToken : Type 0 where
  pub access_token : Bytes
  pub id_token : Bytes
  pub expiry_time : ℤ

abbrev pub no_token : AuthToken
no_token = record { access_token = []; id_token = []; expiry_time = pos 0 }

module _ {D : Type 0} (J : JsonLib D) where
  unfoldable pub read_token : J.Json → Result AuthToken
  unfolding int64 ◌*ℤ◌
  read_token j = do
    access_token ← J.value_string j "access_token" []
    id_token ← J.value_string j "id_token" []
    expiry ← J.value_int j "expiry_time" (pos 0)
    expiry_time ← int64 (expiry *ℤ pos 1000000000)
    ok (record { access_token = access_token; id_token = id_token; expiry_time = expiry_time })

  -- The text of the file, if there is one.
  unfoldable pub load : Option Bytes → Result AuthToken
  unfolding read_token
  load none = ok no_token
  load (some text) = do j ← J.parse text; read_token j

  unfoldable pub token_json : AuthToken → J.Json
  unfolding to_seconds
  token_json token = J.object (
      ("access_token", J.of_string token.access_token)
      ∷ ("id_token", J.of_string token.id_token)
      ∷ ("expiry_time", J.of_int (to_seconds token.expiry_time))
      ∷ [])

  unfoldable pub save : AuthToken → Bytes
  unfolding token_json
  save token = J.pretty (token_json token)

  -- The answer to a login, at a time.
  unfoldable pub granted : ℤ → J.Json → Result AuthToken
  unfolding int64 ◌*ℤ◌ ◌+ℤ◌
  granted now j = do
    access ← J.subscript j "access_token"
    access_token ← J.get_string access
    id ← J.subscript j "id_token"
    id_token ← J.get_string id
    expires ← J.subscript j "expires_in"
    expires_in ← J.get_int expires
    expiry_time ← int64 (now +ℤ expires_in *ℤ pos 1000000000)
    ok (record { access_token = access_token; id_token = id_token; expiry_time = expiry_time })
