-- ===== src/Tests/Library.antt =====
-- A JSON library and a library of doubles, in which the interfaces hold. A double is a whole number here.
use libtd.Base.{
  ℕ, String, Bool, true, false, List, [], ◌∷◌, ◌≡◌, refl, ap, ◌&&◌, if◌then◌else◌, leb, ltb, arith,
  Result, ok, err, out_of_range, type_error, undefined, parse_error, or_throw, ◌>>=◌, ◌==◌,
}
use libtd.Base.Int.{ℤ, pos, IsInt64, InRange, int32_limit, int64_limit, pos_part, neg_part}
use libtd.Text.{Bytes, codes, equal}
use libtd.Text.Decimal.{from_chars, show_ℤ, from_chars-show_ℤ}
use libtd.Json.{JsonLib, member, is_some, or_null, get_or}
use libtd.Parsing.Numbers.{FloatLib}
use libtd.Parsing.Fields.{show_ℤ-Free}

-- An array and an object are chains of their entries.
pub data Value : Type 0 where
  null_value array_end object_end : Value
  number : ℤ → Value
  double : ℤ → Value
  boolean : Bool → Value
  text : Bytes → Value
  item : Value → Value → Value
  entry : String → Value → Value → Value

abbrev pub of_items : List Value → Value
of_items [] = array_end
of_items (v ∷ vs) = item v (of_items vs)

abbrev items : Value → Result (List Value)
items array_end = ok []
items (item v w) = do vs ← items w; ok (v ∷ vs)
items _ = err type_error

abbrev pub of_entries : List (String × Value) → Value
of_entries [] = object_end
of_entries ((k, v) ∷ fs) = entry k v (of_entries fs)

abbrev entries : Value → List (String × Value)
entries (entry k v w) = (k, v) ∷ entries w
entries _ = []

pub items-of_items : (vs : List Value) → items (of_items vs) ≡ ok vs
items-of_items [] = refl
items-of_items (v ∷ vs) = rw (items-of_items vs) refl

pub entries-of_entries : (fs : List (String × Value)) → entries (of_entries fs) ≡ fs
entries-of_entries [] = refl
entries-of_entries ((k, v) ∷ fs) = ap (◌∷◌ (k, v)) (entries-of_entries fs)

abbrev number_in : ℕ → Value → Result ℤ
number_in limit (number a) =
    if ltb (pos_part a) limit && leb (neg_part a) limit then ok a else err undefined
number_in limit _ = err type_error

pub number_in-number : (limit : ℕ) (a : ℤ) → InRange limit a → number_in limit (number a) ≡ ok a
number_in-number limit a h = ground arith

abbrev is_chain : Value → Bool
is_chain array_end = true
is_chain (item v w) = true
is_chain _ = false

abbrev is_text : Value → Bool
is_text (text s) = true
is_text _ = false

abbrev has_no_item : Value → Bool
has_no_item (item v w) = false
has_no_item (entry k v w) = false
has_no_item _ = true

abbrev bool_in : Value → Result Bool
bool_in (boolean b) = ok b
bool_in _ = err type_error

abbrev text_in : Value → Result Bytes
text_in (text s) = ok s
text_in _ = err type_error

abbrev double_in : Value → Result ℤ
double_in (double d) = ok d
double_in _ = err type_error

pub is_chain-of_items : (vs : List Value) → is_chain (of_items vs) ≡ true
is_chain-of_items [] = refl
is_chain-of_items (v ∷ vs) = refl

-- The messages of the tests, each told by its first byte.
abbrev pub greeting : Value
greeting = of_entries (("t", text (codes "connectResponse")) ∷ [])

abbrev pub acceptance : Value
acceptance =
    of_entries (("d", of_entries (("Result", boolean true) ∷ [])) ∷ ("cid", text (codes "b")) ∷ [])

abbrev pub beat : Value
beat = of_entries (
    ("t", text (codes "heartbeat"))
    ∷ (
      "d",
      of_entries (
          ("SentByServer", number (pos 1))
          ∷ ("MessagesReceived", number (pos 2))
          ∷ ("PricesReceived", number (pos 3))
          ∷ ("MessagesSent", number (pos 4))
          ∷ ("PricesSent", number (pos 5))
          ∷ []),
    )
    ∷ [])

abbrev value_or {ℓ} : {A : Type ℓ} → (Value → Result A) → Value → String → A → Result A
value_or read object_end k d = ok d
value_or read (entry j v w) k d = get_or read d (member k (entries (entry j v w)))
value_or read _ k d = err type_error

pub value_or-of_entries {ℓ} :
    {A : Type ℓ} (read : Value → Result A) (fs : List (String × Value)) (k : String) (d : A)
    → value_or read (of_entries fs) k d ≡ get_or read d (member k fs)
value_or-of_entries read [] k d = refl
value_or-of_entries read ((j, v) ∷ fs) k d =
    ap (λ gs. get_or read d (member k ((j, v) ∷ gs))) (entries-of_entries fs)

abbrev loop_items : Value → List Value
loop_items (item v w) = v ∷ loop_items w
loop_items _ = []

pub loop_items-of_items : (vs : List Value) → loop_items (of_items vs) ≡ vs
loop_items-of_items [] = refl
loop_items-of_items (v ∷ vs) = ap (◌∷◌ v) (loop_items-of_items vs)

abbrev same_text : Value → Bytes → Bool
same_text (text s) t = equal s t
same_text _ t = false

-- The answer to a login, the file of its token, and the candles of a market.
abbrev pub grant : Value
grant = of_entries (
    ("access_token", text (codes "A"))
    ∷ ("id_token", text (codes "I"))
    ∷ ("expires_in", number (pos 10))
    ∷ [])

abbrev pub kept_token : Value
kept_token = of_entries (
    ("access_token", text (codes "A"))
    ∷ ("id_token", text (codes "I"))
    ∷ ("expiry_time", number (pos 10))
    ∷ [])

abbrev pub candle_lines : Value
candle_lines = of_entries (("data", of_items (text (codes "1,2,3,4,5,6") ∷ [])) ∷ [])

-- A message about the account of a platform that has no summary.
abbrev pub summary : Value
summary = of_entries (
    ("t", text (codes "accountSummary"))
    ∷ ("d", of_entries (("PlatformID", number (pos 0)) ∷ []))
    ∷ [])

abbrev read_message : Bytes → Result Value
read_message [] = err parse_error
read_message (c ∷ s) =
    if c == b'g'
    then ok greeting
    else if c == b'a'
    then ok acceptance
    else if c == b'h'
    then ok beat
    else if c == b's'
    then ok summary
    else if c == b'n'
    then ok grant
    else if c == b't'
    then ok kept_token
    else if c == b'd'
    then ok candle_lines
    else err parse_error

abbrev pub json : JsonLib ℤ
json = record {
  Json = Value;
  null = null_value;
  of_int = number;
  of_bool = boolean;
  of_string = text;
  of_double = double;
  of_array = of_items;
  object = of_entries;
  at = λ j k. or_throw (member k (entries j)) out_of_range;
  index = λ j k. or_throw (member k (entries j)) undefined;
  subscript = λ j k. ok (or_null null_value (member k (entries j)));
  contains = λ j k. is_some (member k (entries j));
  find = λ j k. member k (entries j);
  is_array = is_chain;
  is_string = is_text;
  is_empty = has_no_item;
  get_int = number_in int32_limit;
  get_int64 = number_in int64_limit;
  get_bool = bool_in;
  get_string = text_in;
  get_double = double_in;
  get_array = items;
  value_int = value_or (number_in int32_limit);
  value_string = value_or text_in;
  elements = loop_items;
  equals_string = same_text;
  parse = read_message;
  dump = λ _. [];
  pretty = λ _. codes "t";
  at-object = λ fs k. ap (λ gs. or_throw (member k gs) out_of_range) (entries-of_entries fs);
  index-object = λ fs k. ap (λ gs. or_throw (member k gs) undefined) (entries-of_entries fs);
  subscript-object =
      λ fs k. ap (λ gs. ok (or_null null_value (member k gs))) (entries-of_entries fs);
  contains-object = λ fs k. ap (λ gs. is_some (member k gs)) (entries-of_entries fs);
  find-object = λ fs k. ap (member k) (entries-of_entries fs);
  value_int-object = value_or-of_entries (number_in int32_limit);
  value_string-object = value_or-of_entries text_in;
  elements-of_array = loop_items-of_items;
  equals_string-of_string = λ s t. refl;
  is_string-of_string = λ s. refl;
  is_array-of_array = is_chain-of_items;
  is_empty-cons = λ j js. refl;
  get_int-of_int = number_in-number int32_limit;
  get_int64-of_int = number_in-number int64_limit;
  get_bool-of_bool = λ b. refl;
  get_string-of_string = λ s. refl;
  get_string-null = refl;
  get_double-of_double = λ d. refl;
  get_array-of_array = items-of_items;
}

-- The double that is written for a whole number: one outside of 64 bits is written as 0.
abbrev clamp : ℤ → ℤ
clamp d = if ltb (pos_part d) int64_limit && leb (neg_part d) int64_limit then d else pos 0

pub clamp-IsInt64 : (d : ℤ) → IsInt64 (clamp d)
clamp-IsInt64 d = ground arith

abbrev pub float : FloatLib ℤ
float = record {
  zero = pos 0;
  read = from_chars int64_limit;
  fixed = λ d. show_ℤ (clamp d);
  round = clamp;
  read-fixed = λ d. from_chars-show_ℤ int64_limit (clamp d) (clamp-IsInt64 d);
  fixed-Free = λ d. show_ℤ-Free (clamp d);
}
