-- ===== src/Parsing/GroupingNames.antt =====
-- src/parsing.cpp: the names of the groupings, and the key of each in a price message.
use libtd.Base.{
  String, List, [], ◌∷◌, Result, ok, err, undefined, ltb, ◌==◌, if◌then◌else◌, ◌≡◌, refl,
}
use libtd.Text.{Bytes, codes}
use libtd.Types.Tick.{Grouping, grouped, sampled, delayed, candle_1m}
use Prim.Native.Nat.{ℕ}

unfoldable pub to_cstring : Grouping → Bytes
to_cstring grouped = codes "Grouped"
to_cstring sampled = codes "Sampled"
to_cstring delayed = codes "Delayed"
to_cstring candle_1m = codes "Candle1Minute"

-- The entry of the table for a character; every other entry is zero, which is `grouped`.
unfoldable pub faster_grouping_lookup : ℕ → Grouping
faster_grouping_lookup c =
    if c == b'G'
    then grouped
    else if c == b'S'
    then sampled
    else if c == b'D'
    then delayed
    else if c == b'C'
    then candle_1m
    else grouped

-- `key[0]` of an empty key lies past its end. A `char` is signed, so a byte from 128 on gives an
-- index far outside the table.
unfoldable pub string_to_price_type : Bytes → Result Grouping
unfolding faster_grouping_lookup
string_to_price_type [] = err undefined
string_to_price_type (c ∷ s) = if ltb c 128 then ok (faster_grouping_lookup c) else err undefined

-- Reading the name of a grouping gives the grouping.
pub string_to_price_type-to_cstring : (g : Grouping) → string_to_price_type (to_cstring g) ≡ ok g
unfolding string_to_price_type to_cstring
string_to_price_type-to_cstring grouped = refl
string_to_price_type-to_cstring sampled = refl
string_to_price_type-to_cstring delayed = refl
string_to_price_type-to_cstring candle_1m = refl

-- `grouping_map`, in the order in which the header lists it.
abbrev pub grouping_map : List (String × Grouping)
grouping_map = ("gp", grouped) ∷ ("sp", sampled) ∷ ("dp", delayed) ∷ ("c1m", candle_1m) ∷ []
