-- ===== src/HttpClient/Debug.antt =====
-- The debug output: `log_request_debug` and `log_response_debug` of src/http_client.cpp, and
-- `is_debug_enabled` of src/ws.cpp, which decides on it.
use libtd.Base.{
  Bool, true, false, Option, none, some, List, [], ◌∷◌, ◌++◌, length, map, ◌≡◌, refl, Result, ok,
  err,
}
use libtd.Base.Stateful.{Stateful}
use libtd.Text.{Bytes, codes}
use libtd.Text.Decimal.{show_ℕ}
use libtd.HttpClient.Boost.{BoostLib, Network, Request, Response, Verb, get_verb, post_verb}

abbrev method_string : Verb → Bytes
method_string get_verb = codes "GET"
method_string post_verb = codes "POST"

abbrev header_line : Bytes × Bytes → Bytes
header_line (name, value) = codes "  " ++ (name ++ (codes ": " ++ value))

module _ (B : BoostLib) where
  -- The lines of a request, whose body is a string.
  unfoldable pub log_request_debug : Request (B.Fields) → List Bytes
  log_request_debug req =
      codes "----- HTTP Request -----"
      ∷ (method_string req.verb ++ (codes " " ++ req.target))
      ∷ (map header_line (B.each req.fields)
          ++ (codes "Body: " ++ req.body) ∷ codes "---------------------------------" ∷ [])

  module _ (N : Network B) where
    -- The lines of a response: of its body, only the number of bytes.
    unfoldable pub log_response_debug : Response (B.Fields) → List Bytes
    log_response_debug res =
        codes "----- HTTP Response -----"
        ∷ (codes "HTTP/1.1 " ++ N.status_line res)
        ∷ (map header_line (B.each res.fields)
            ++ (codes "Body: <" ++ (show_ℕ (length res.body) ++ codes " bytes>"))
              ∷ codes "----------------------------------"
              ∷ [])

    abbrev truth : Option Bytes → Result Bool
    truth none = ok false
    truth (some value) = N.to_bool value

    -- The variable is read once, and again as long as its value throws.
    unfoldable pub is_debug_enabled : Result Bool
    is_debug_enabled = truth N.debug

    unfoldable pub show_if : List Bytes → Result Bool → Stateful (N.World) (Unit {0})
    show_if lines (err thrown) w = (err thrown, w)
    show_if lines (ok false) w = (ok tt, w)
    show_if lines (ok true) w = (ok tt, N.show lines w)

    -- Lines that are shown if the debug output is on.
    unfoldable pub debug : List Bytes → Stateful (N.World) (Unit {0})
    unfolding is_debug_enabled show_if
    debug lines = show_if lines is_debug_enabled

    pub debug_off :
        (lines : List Bytes) (w : N.World)
        → is_debug_enabled ≡ ok false
        → debug lines w ≡ (ok tt, w)
    unfolding debug show_if
    debug_off lines w h = rw h refl
