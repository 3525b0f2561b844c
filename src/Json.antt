-- ===== src/Json.antt =====
-- nlohmann::json, which is not part of the repository: the operations that the code calls, with the
-- documented behaviour that it relies on. `D` stands for `double`.
use libtd.Base.{
  String, Bool, true, false, List, [], ◌∷◌, Option, none, some, ◌≡◌, str_eq, if◌then◌else◌, Result,
  ok, err, out_of_range, type_error, undefined, or_throw, ◌>>=◌, traverse,
}
use libtd.Base.Int.{ℤ, IsInt32, IsInt64}
use libtd.Text.{Bytes, equal}

-- The member of an object with a key; the first one, if an initialiser list repeats it.
abbrev pub member {ℓ} : {V : Type ℓ} → String → List (String × V) → Option V
member k [] = none
member k ((j, v) ∷ fs) = if str_eq j k then some v else member k fs

abbrev pub is_some {ℓ} : {A : Type ℓ} → Option A → Bool
is_some none = false
is_some (some a) = true

abbrev pub or_null {ℓ} : {A : Type ℓ} → A → Option A → A
or_null d none = d
or_null d (some a) = a

-- What `value` gives for a member that may be missing.
abbrev pub get_or {ℓ κ} : {V : Type ℓ} {A : Type κ} → (V → Result A) → A → Option V → Result A
get_or read d none = ok d
get_or read d (some v) = read v

pub record JsonLib (D : Type 0) : Type 1 where
  pub Json : Type 0
  pub null : Json
  pub of_int : ℤ → Json
  pub of_bool : Bool → Json
  pub of_string : Bytes → Json
  pub of_double : D → Json
  pub of_array : List Json → Json
  pub object : List (String × Json) → Json
  -- `at`, `operator[]` on a constant and on a mutable value, `contains`
  pub at : Json → String → Result Json
  pub index : Json → String → Result Json
  pub subscript : Json → String → Result Json
  pub contains : Json → String → Bool
  -- `find`, where `none` is the end of the object; `is_array`, `is_string` and `empty`
  pub find : Json → String → Option Json
  pub is_array : Json → Bool
  pub is_string : Json → Bool
  pub is_empty : Json → Bool
  -- `get<int>`, `get<int64_t>`, `get<bool>`, `get<std::string>`, `get<double>`, and the elements of
  -- an array, as `get<std::vector<T>>` reads them
  pub get_int : Json → Result ℤ
  pub get_int64 : Json → Result ℤ
  pub get_bool : Json → Result Bool
  pub get_string : Json → Result Bytes
  pub get_double : Json → Result D
  pub get_array : Json → Result (List Json)
  -- `value` with a default, of type `int` and `std::string`; the elements that a loop over a value
  -- goes through; `==` with a string
  pub value_int : Json → String → ℤ → Result ℤ
  pub value_string : Json → String → Bytes → Result Bytes
  pub elements : Json → List Json
  pub equals_string : Json → Bytes → Bool
  -- `json::parse`, `dump()`, and `dump(4)`
  pub parse : Bytes → Result Json
  pub dump : Json → Bytes
  pub pretty : Json → Bytes
  pub at-object :
      (fs : List (String × Json)) (k : String)
      → at (object fs) k ≡ or_throw (member k fs) out_of_range
  pub index-object :
      (fs : List (String × Json)) (k : String)
      → index (object fs) k ≡ or_throw (member k fs) undefined
  pub subscript-object :
      (fs : List (String × Json)) (k : String)
      → subscript (object fs) k ≡ ok (or_null null (member k fs))
  pub contains-object :
      (fs : List (String × Json)) (k : String) → contains (object fs) k ≡ is_some (member k fs)
  pub find-object : (fs : List (String × Json)) (k : String) → find (object fs) k ≡ member k fs
  pub value_int-object :
      (fs : List (String × Json)) (k : String) (d : ℤ)
      → value_int (object fs) k d ≡ get_or get_int d (member k fs)
  pub value_string-object :
      (fs : List (String × Json)) (k : String) (d : Bytes)
      → value_string (object fs) k d ≡ get_or get_string d (member k fs)
  pub elements-of_array : (js : List Json) → elements (of_array js) ≡ js
  pub equals_string-of_string : (s t : Bytes) → equals_string (of_string s) t ≡ equal s t
  pub is_string-of_string : (s : Bytes) → is_string (of_string s) ≡ true
  pub is_array-of_array : (js : List Json) → is_array (of_array js) ≡ true
  pub is_empty-cons : (j : Json) (js : List Json) → is_empty (of_array (j ∷ js)) ≡ false
  pub get_int-of_int : (n : ℤ) → IsInt32 n → get_int (of_int n) ≡ ok n
  pub get_int64-of_int : (n : ℤ) → IsInt64 n → get_int64 (of_int n) ≡ ok n
  pub get_bool-of_bool : (b : Bool) → get_bool (of_bool b) ≡ ok b
  pub get_string-of_string : (s : Bytes) → get_string (of_string s) ≡ ok s
  pub get_string-null : get_string null ≡ err type_error
  pub get_double-of_double : (d : D) → get_double (of_double d) ≡ ok d
  pub get_array-of_array : (js : List Json) → get_array (of_array js) ≡ ok js

module _ {D : Type 0} (J : JsonLib D) where
  open J use {
    Json, of_int, of_bool, of_string, of_double, of_array, object, at, get_int, get_int64, get_bool,
    get_string, get_double, get_array, at-object, get_int-of_int, get_int64-of_int,
    get_bool-of_bool, get_string-of_string, get_double-of_double, get_array-of_array,
  }

  -- `j.at(k).get_to(x)`, for each type of `x`.
  unfoldable pub int_at : Json → String → Result ℤ
  int_at j k = at j k >>= get_int

  pub int64_at : Json → String → Result ℤ
  int64_at j k = at j k >>= get_int64

  unfoldable pub bool_at : Json → String → Result Bool
  bool_at j k = at j k >>= get_bool

  unfoldable pub string_at : Json → String → Result Bytes
  string_at j k = at j k >>= get_string

  unfoldable pub double_at : Json → String → Result D
  double_at j k = at j k >>= get_double

  -- The same for a type with a `from_json` of its own, and for a vector of such.
  unfoldable pub value_at {ℓ} : {A : Type ℓ} → (Json → Result A) → Json → String → Result A
  value_at f j k = at j k >>= f

  unfoldable pub read_array {ℓ} : {A : Type ℓ} → (Json → Result A) → Json → Result (List A)
  read_array f v = do js ← get_array v; traverse f js

  unfoldable pub vector_at {ℓ} : {A : Type ℓ} → (Json → Result A) → Json → String → Result (List A)
  vector_at f j k = at j k >>= read_array f

  -- A member of an object is looked up, and then read at its type.
  pub int_at-object :
      (fs : List (String × Json)) (k : String)
      → int_at (object fs) k ≡ (or_throw (member k fs) out_of_range >>= get_int)
  unfolding int_at
  int_at-object fs k = rw (at-object fs k)

  pub int64_at-object :
      (fs : List (String × Json)) (k : String)
      → int64_at (object fs) k ≡ (or_throw (member k fs) out_of_range >>= get_int64)
  unfolding int64_at
  int64_at-object fs k = rw (at-object fs k)

  pub bool_at-object :
      (fs : List (String × Json)) (k : String)
      → bool_at (object fs) k ≡ (or_throw (member k fs) out_of_range >>= get_bool)
  unfolding bool_at
  bool_at-object fs k = rw (at-object fs k)

  pub string_at-object :
      (fs : List (String × Json)) (k : String)
      → string_at (object fs) k ≡ (or_throw (member k fs) out_of_range >>= get_string)
  unfolding string_at
  string_at-object fs k = rw (at-object fs k)

  pub double_at-object :
      (fs : List (String × Json)) (k : String)
      → double_at (object fs) k ≡ (or_throw (member k fs) out_of_range >>= get_double)
  unfolding double_at
  double_at-object fs k = rw (at-object fs k)

  pub value_at-object {ℓ} :
      {A : Type ℓ} (f : Json → Result A) (fs : List (String × Json)) (k : String)
      → value_at f (object fs) k ≡ (or_throw (member k fs) out_of_range >>= f)
  unfolding value_at
  value_at-object f fs k = rw (at-object fs k)

  pub vector_at-object {ℓ} :
      {A : Type ℓ} (f : Json → Result A) (fs : List (String × Json)) (k : String)
      → vector_at f (object fs) k ≡ (or_throw (member k fs) out_of_range >>= read_array f)
  unfolding vector_at
  vector_at-object f fs k = rw (at-object fs k)

  pub read_array-of_array {ℓ} :
      {A : Type ℓ} (f : Json → Result A) (js : List Json)
      → read_array f (of_array js) ≡ traverse f js
  unfolding read_array
  read_array-of_array f js = rw (get_array-of_array js)

  -- The laws of the interface, in the form that a ruleset takes.
  pub int_back : (n : ℤ) → IsInt32 n → get_int (of_int n) ≡ ok n
  int_back = get_int-of_int

  pub int64_back : (n : ℤ) → IsInt64 n → get_int64 (of_int n) ≡ ok n
  int64_back = get_int64-of_int

  pub bool_back : (b : Bool) → get_bool (of_bool b) ≡ ok b
  bool_back = get_bool-of_bool

  pub string_back : (s : Bytes) → get_string (of_string s) ≡ ok s
  string_back = get_string-of_string

  pub double_back : (d : D) → get_double (of_double d) ≡ ok d
  double_back = get_double-of_double

pub ruleset codec_laws = (
  int_at-object, int64_at-object, bool_at-object, string_at-object, double_at-object,
  value_at-object, vector_at-object, read_array-of_array, int_back, int64_back, bool_back,
  string_back, double_back,
)
