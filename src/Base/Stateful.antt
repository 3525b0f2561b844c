-- ===== src/Base/Stateful.antt =====
-- Code that changes a state and may throw. The state is given back also where it throws.
use mathlib.Core.Path.{◌≡◌, refl}
use native.Mathlib.Omega.{arith}
use libtd.Base.Outcome.{Result, ok, err}

abbrev pub Stateful : Type 0 → Type 0 → Type 0
Stateful State Value = State → Result Value × State

abbrev pub continue :
    {State Value Next : Type 0}
    → (Value → Stateful State Next)
    → Result Value × State
    → Result Next × State
continue statements (err thrown, s) = (err thrown, s)
continue statements (ok value, s) = statements value s

infixl 5 ◌>>=◌ ◌>>◌
unfoldable pub ◌>>=◌ :
    {State Value Next : Type 0}
    → Stateful State Value
    → (Value → Stateful State Next)
    → Stateful State Next
(first >>= statements) s = continue statements (first s)

unfoldable pub ◌>>◌ :
    {State Next : Type 0} → Stateful State (Unit {0}) → Stateful State Next → Stateful State Next
(first >> statements) s = continue (λ _. statements) (first s)

abbrev pub give : {State Value : Type 0} → Value → Stateful State Value
give value s = (ok value, s)

-- A call that leaves the state alone.
abbrev pub throwing : {State Value : Type 0} → Result Value → Stateful State Value
throwing result s = (result, s)

-- The state, or what the code reads of it.
abbrev pub reading : {State Value : Type 0} → (State → Value) → Stateful State Value
reading f s = (ok (f s), s)

abbrev pub modify : {State : Type 0} → (State → State) → Stateful State (Unit {0})
modify f s = (ok tt, f s)

-- A part of the state is changed by a call that knows that part only.
abbrev pub joined :
    {Part State Value : Type 0} → (Part → State) → Result Value × Part → Result Value × State
joined back (result, part) = (result, back part)

-- A call keeps a property of the state, whether it throws or not.
unfoldable pub Keeps : {State Value : Type 0} → (State → Type 0) → Stateful State Value → Type 0
Keeps {State} P call = (s : State) → P s → P ((call s).1)

continue-Keeps :
    {State Value Next : Type 0} (P : State → Type 0) (statements : Value → Stateful State Next)
    (outcome : Result Value × State)
    → ((value : Value) → Keeps P (statements value))
    → P (outcome.1)
    → P ((continue statements outcome).1)
unfolding Keeps
continue-Keeps P statements (err thrown, s) keeps h = h
continue-Keeps P statements (ok value, s) keeps h = keeps value s h

pub bind-Keeps :
    {State Value Next : Type 0} (P : State → Type 0) (first : Stateful State Value)
    (statements : Value → Stateful State Next)
    → Keeps P first
    → ((value : Value) → Keeps P (statements value))
    → Keeps P (first >>= statements)
unfolding ◌>>=◌ Keeps
bind-Keeps P first statements keeps rest s h =
    continue-Keeps P statements (first s) rest (keeps s h)

pub then-Keeps :
    {State Next : Type 0} (P : State → Type 0) (first : Stateful State (Unit {0}))
    (statements : Stateful State Next)
    → Keeps P first
    → Keeps P statements
    → Keeps P (first >> statements)
unfolding ◌>>◌ Keeps
then-Keeps P first statements keeps rest s h =
    continue-Keeps P (λ _. statements) (first s) (λ _. rest) (keeps s h)

-- From a state with a property, a call that returns gives a value and a state with another.
unfoldable pub Ensures :
    {State Value : Type 0}
    → (State → Type 0)
    → (Value → State → Type 0)
    → Stateful State Value
    → Type 0
Ensures {State} {Value} P Q call =
    (s : State) (value : Value) → P s → (call s).0 ≡ ok value → Q value ((call s).1)

continue-Ensures :
    {State Value Next : Type 0} (Q : Value → State → Type 0) (R : Next → State → Type 0)
    (statements : Value → Stateful State Next) (outcome : Result Value × State) (next : Next)
    → ((value : Value) → Ensures (Q value) R (statements value))
    → ((value : Value) → outcome.0 ≡ ok value → Q value (outcome.1))
    → (continue statements outcome).0 ≡ ok next
    → R next ((continue statements outcome).1)
unfolding Ensures
continue-Ensures Q R statements (err thrown, s) next ensures h e = absurd (ground arith)
continue-Ensures Q R statements (ok value, s) next ensures h e =
    ensures value s next (h value refl) e

pub bind-Ensures :
    {State Value Next : Type 0} (P : State → Type 0) (Q : Value → State → Type 0)
    (R : Next → State → Type 0) (first : Stateful State Value)
    (statements : Value → Stateful State Next)
    → Ensures P Q first
    → ((value : Value) → Ensures (Q value) R (statements value))
    → Ensures P R (first >>= statements)
unfolding ◌>>=◌ Ensures
bind-Ensures P Q R first statements ensures rest s next h e =
    continue-Ensures Q R statements (first s) next rest (λ value k. ensures s value h k) e

pub then-Ensures :
    {State Next : Type 0} (P Q : State → Type 0) (R : Next → State → Type 0)
    (first : Stateful State (Unit {0})) (statements : Stateful State Next)
    → Ensures P (λ u. Q) first
    → Ensures Q R statements
    → Ensures P R (first >> statements)
unfolding ◌>>◌ Ensures
then-Ensures P Q R first statements ensures rest s next h e =
    continue-Ensures (λ u. Q) R (λ _. statements) (first s) next (λ u. rest)
      (λ value k. ensures s value h k) e

pub Keeps-Ensures :
    {State Value : Type 0} (P : State → Type 0) (call : Stateful State Value)
    → Keeps P call
    → Ensures P (λ value. P) call
unfolding Keeps Ensures
Keeps-Ensures P call keeps s value h e = keeps s h
