-- ===== src/Base/Outcome.antt =====
-- What a call gives: a value, or the exception that it throws. `undefined` stands for behaviour that
-- C++ leaves undefined (a null pointer, an index past the end, a signed overflow, a missing key of a
-- constant JSON object).
use mathlib.Core.Path.{◌≡◌, refl, subst}
use mathlib.Core.Bool.{Bool, true, false}
use mathlib.Core.List.{List, [], ◌∷◌, map}
use libtd.Base.Lists.{All}
use mathlib.Core.Option.{Option, none, some}

-- The kind of an exception; its message is left out. The last two are objects of type `error_code`
-- that are thrown as such, not inside a `system_error`: `end_of_stream`, and any other.
pub data Error : Type 0 where
  runtime_error invalid_argument out_of_range type_error parse_error system_error : Error
  bad_lexical_cast undefined : Error
  thrown_end_of_stream thrown_code : Error

pub data Result {ℓ} (Value : Type ℓ) : Type ℓ where
  ok : Value → Result Value
  err : Error → Result Value

-- A guard that throws an exception `thrown` unless a condition holds.
abbrev pub guard : (condition : Bool) (thrown : Error) → Result (Unit {0})
guard false thrown = err thrown
guard true _ = ok tt

-- include/td365/verify.h: `verify` throws what `fail` makes, a runtime error.
abbrev pub fail : Error
fail = runtime_error

abbrev pub verify : (condition : Bool) → Result (Unit {0})
verify condition = guard condition fail

abbrev pub or_throw {ℓ} : {Value : Type ℓ} → Option Value → Error → Result Value
or_throw (some value) _ = ok value
or_throw none thrown = err thrown

infixl 5 ◌>>=◌ ◌>>◌
-- An exception leaves the block; a value is handed to the statements behind.
abbrev pub ◌>>=◌ {ℓ κ} :
    {Value : Type ℓ} {Next : Type κ} → Result Value → (Value → Result Next) → Result Next
err thrown >>= statements = err thrown
ok value >>= statements = statements value

abbrev pub ◌>>◌ {ℓ} : {Next : Type ℓ} → Result (Unit {0}) → Result Next → Result Next
statement >> statements = statement >>= λ _. statements

-- Run an action on each element, from the left, up to the first that throws.
unfoldable pub traverse {ℓ κ} :
    {A : Type ℓ} {B : Type κ} → (A → Result B) → List A → Result (List B)
traverse f [] = ok []
traverse f (x ∷ xs) = do b ← f x; bs ← traverse f xs; ok (b ∷ bs)

-- What each element gives back, the list gives back.
pub traverse-map {ℓ κ μ} :
    {A : Type ℓ} {B : Type κ} (f : B → Result A) (g : A → B) (P : A → Type μ)
    → ((x : A) → P x → f (g x) ≡ ok x)
    → (xs : List A) → All P xs
    → traverse f (map g xs) ≡ ok xs
unfolding traverse
traverse-map f g P back [] h = refl
traverse-map f g P back (x ∷ xs) h = rw (back x h.0, traverse-map f g P back xs h.1) refl

-- What a call gives back, if it does not throw, has a property.
unfoldable pub Gives : {Value : Type 0} → (Value → Type 0) → Result Value → Type 0
Gives P (ok value) = P value
Gives P (err thrown) = Unit

pub bind-Gives :
    {Value Next : Type 0} (P : Value → Type 0) (Q : Next → Type 0) (first : Result Value)
    (statements : Value → Result Next)
    → Gives P first
    → ((value : Value) → P value → Gives Q (statements value))
    → Gives Q (first >>= statements)
unfolding Gives
bind-Gives P Q (ok value) statements h k = k value h
bind-Gives P Q (err thrown) statements h k = tt

pub Gives-any : {Value : Type 0} (call : Result Value) → Gives (λ value. Unit) call
unfolding Gives
Gives-any (ok value) = tt
Gives-any (err thrown) = tt

pub or_throw-Gives :
    {Value : Type 0} (P : Value → Type 0) (read : Option Value) (thrown : Error)
    → ((value : Value) → read ≡ some value → P value)
    → Gives P (or_throw read thrown)
unfolding Gives
or_throw-Gives P none thrown h = tt
or_throw-Gives P (some value) thrown h = h value refl

pub Gives-ok :
    {Value : Type 0} (P : Value → Type 0) (call : Result Value) (value : Value)
    → Gives P call
    → call ≡ ok value
    → P value
unfolding Gives
Gives-ok P call value h e = subst (Gives P) e h
