-- ===== src/WsClient/Prices.antt =====
-- Which price of a message becomes an event.
use libtd.Base.{
  ◌∙◌, String, none, some, List, [], ◌∷◌, ◌++◌, All, ◌≡◌, refl, Result, ok, err, map, traverse,
  traverse-map, ◌>>=◌,
}
use libtd.Base.Int.{ℤ}
use libtd.Text.{Bytes, codes, equal}
use libtd.Json.{JsonLib, member, read_array-of_array}
use libtd.Types.Tick.{Tick, Grouping}
use libtd.Types.Event.{tick_event}
use libtd.Parsing.Numbers.{FloatLib}
use libtd.Parsing.TdTick.{parse_td_tick}
use libtd.WsClient.State.{Oracle, Client}
use libtd.WsClient.State
use libtd.WsClient.PayloadTypes.{string_to_payload_type}
use libtd.WsClient.Loop.{handle, dispatch}
use libtd.WsClient.Payloads.{first_of, from_group, first_price, process_price_data}

module _ {D : Type 0} (J : JsonLib D) (F : FloatLib D) where
  open J use {
    Json, object, of_array, of_string, find, is_array-of_array, is_empty-cons, get_string,
    get_string-of_string, index-object, find-object,
  }

  -- The message has no member of this name.
  abbrev Lacks : List (String × Json) → String × Grouping → Type 0
  Lacks fs (key, g) = member key fs ≡ none

  first_price-skips :
      (earlier rest : List (String × Grouping)) (fs : List (String × Json)) (wall : ℤ)
      → All (Lacks fs) earlier
      → first_price J F (earlier ++ rest) (object fs) wall ≡ first_price J F rest (object fs) wall
  unfolding first_price
  first_price-skips [] rest fs wall h = refl
  first_price-skips ((k, g) ∷ ks) rest fs wall h =
      rw (find-object fs k, h.0) (first_price-skips ks rest fs wall h.1)

  any : (ps : List Bytes) → All (λ _. Unit {0}) ps
  any [] = tt
  any (p ∷ ps) = (tt, any ps)

  strings-back : (ps : List Bytes) → traverse get_string (map of_string ps) ≡ ok ps
  strings-back ps =
      traverse-map get_string of_string (λ _. Unit {0}) (λ s _. get_string-of_string s) ps (any ps)

  first_price-here :
      (later : List (String × Grouping)) (key : String) (g : Grouping) (fs : List (String × Json))
      (p : Bytes) (ps : List Bytes) (wall : ℤ)
      → member key fs ≡ some (of_array (map of_string (p ∷ ps)))
      → first_price J F ((key, g) ∷ later) (object fs) wall
        ≡ (parse_td_tick F p g wall >>= λ t. ok (tick_event t))
  unfolding first_price from_group first_of
  first_price-here later key g fs p ps wall e =
      rw (find-object fs key, e, is_array-of_array, is_empty-cons)
        (rw (read_array-of_array J get_string, strings-back (p ∷ ps)) refl)

  price_data-first :
      (earlier later : List (String × Grouping)) (key : String) (g : Grouping)
      (ms fs : List (String × Json)) (p : Bytes) (ps : List Bytes) (wall : ℤ)
      → member "d" ms ≡ some (object fs)
      → All (Lacks fs) earlier
      → member key fs ≡ some (of_array (map of_string (p ∷ ps)))
      → process_price_data J F (earlier ++ (key, g) ∷ later) (object ms) wall
        ≡ (parse_td_tick F p g wall >>= λ t. ok (tick_event t))
  unfolding process_price_data
  price_data-first earlier later key g ms fs p ps wall d h e =
      rw (index-object, d)
        (first_price-skips earlier ((key, g) ∷ later) fs wall h
          ∙ first_price-here later key g fs p ps wall e)

  tick_given :
      (read : Result (Tick D)) (c : Client Json)
      → State.continue ((read >>= λ t. ok (tick_event t)), c) (λ e. State.pure (some e))
        ≡ ((read >>= λ t. ok (some (tick_event t))), c)
  unfolding State.continue State.pure
  tick_given (ok t) c = refl
  tick_given (err thrown) c = refl

  -- When a message of the type of prices is handled, the keys that the map lists before a group
  -- are absent from its data and the group has prices there, the event is the tick of the first
  -- price of that group alone, or the exception of its parse, and the client stays as it is.
  pub handle_first_price :
      (write_fails : Oracle Json) (earlier later : List (String × Grouping)) (key : String)
      (g : Grouping) (buf : Bytes) (ms fs : List (String × Json)) (p : Bytes) (ps : List Bytes)
      (wall : ℤ) (c : Client Json)
      → J.parse buf ≡ ok (object ms)
      → member "t" ms ≡ some (of_string (codes "p"))
      → member "d" ms ≡ some (object fs)
      → All (Lacks fs) earlier
      → member key fs ≡ some (of_array (map of_string (p ∷ ps)))
      → handle J F write_fails (earlier ++ (key, g) ∷ later) buf wall c
        ≡ ((parse_td_tick F p g wall >>= λ t. ok (some (tick_event t))), c)
  unfolding handle dispatch string_to_payload_type equal State.◌>>=◌
  handle_first_price write_fails earlier later key g buf ms fs p ps wall c b t d h e =
      rw
        (
          b,
          J.subscript-object ms "t",
          t,
          J.get_string-of_string (codes "p"),
          price_data-first earlier later key g ms fs p ps wall d h e,
        )
        (tick_given (parse_td_tick F p g wall) c)
