-- ===== src/Text/Decimal.antt =====
-- Integers as decimal text: std::from_chars of an integer type, and `<<` on one.
use libtd.Base.{
  false, ◌++◌, ℕ, zero, suc, ◌+◌, ◌-◌, ◌*◌, ◌/◌, ◌%◌, ◌<◌, Bool, true, ◌&&◌, [], ◌∷◌, All, Option,
  none, some, ltb, leb, ◌==◌, ◌≡◌, refl, ap, ◌∙◌, arith, if◌then◌else◌, Bool-cases, inl, inr, ◌⊎◌,
}
use libtd.Text.{Bytes}
use libtd.Base.Int.{ℤ, pos, negsuc, InRange, sub_ℕ}

unfoldable pub is_digit : ℕ → Bool
is_digit c = leb b'0' c && leb c b'9'

-- The value of the longest prefix of digits, behind what was read before.
pub scan : ℕ → Bytes → ℕ
scan acc [] = acc
scan acc (c ∷ s) = let rest = scan (acc * 10 + (c - b'0')) s in if is_digit c then rest else acc

-- `none` if no digit stands first.
pub read_digits : Bytes → Option ℕ
unfolding scan is_digit
read_digits [] = none
read_digits (c ∷ s) = if is_digit c then some (scan 0 (c ∷ s)) else none

in_range_pos : ℕ → ℕ → Option ℤ
in_range_pos limit v = if ltb v limit then some (pos v) else none

in_range_neg : ℕ → ℕ → Option ℤ
in_range_neg limit v = if leb v limit then some (sub_ℕ 0 v) else none

-- std::from_chars into a signed type with values from -limit up to limit - 1; `none` stands for an
-- error code. The text behind the digits is not looked at.
unfoldable pub from_chars : ℕ → Bytes → Option ℤ
unfolding read_digits in_range_pos in_range_neg
from_chars limit [] = none
from_chars limit (c ∷ s) =
    if c == b'-'
    then elim (read_digits s) [ none ↦ none | some v ↦ in_range_neg limit v ]
    else elim (read_digits (c ∷ s)) [ none ↦ none | some v ↦ in_range_pos limit v ]

-- The digits of a number in front of a text. The number of digits is at most the number plus one.
digits_onto : ℕ → ℕ → Bytes → Bytes
digits_onto zero n s = s
digits_onto (suc f) n s =
    let rest = digits_onto f (n / 10) ((b'0' + n % 10) ∷ s) in
    if ltb n 10 then (b'0' + n) ∷ s else rest

unfoldable pub show_ℕ : ℕ → Bytes
unfolding digits_onto
show_ℕ n = digits_onto (suc n) n []

unfoldable pub show_ℤ : ℤ → Bytes
unfolding show_ℕ
show_ℤ (pos n) = show_ℕ n
show_ℤ (negsuc n) = b'-' ∷ show_ℕ (suc n)

scan-digits_onto : (f n : ℕ) (s : Bytes) → n < f → scan 0 (digits_onto f n s) ≡ scan n s
unfolding scan digits_onto is_digit
scan-digits_onto zero n s h = elim h [ ]
scan-digits_onto (suc f) n s h = elim (Bool-cases (ltb n 10)) [
  | inl small ↦ rw small (ground arith)
  | inr big ↦
      rw big (scan-digits_onto f (n / 10) ((b'0' + n % 10) ∷ s) (ground arith) ∙ ground arith)
]

-- A text with a digit in front.
abbrev StartsDigit : Bytes → Type 0
StartsDigit [] = ⊥
StartsDigit (c ∷ s) = is_digit c ≡ true

digits_onto-StartsDigit : (f n : ℕ) (s : Bytes) → n < f → StartsDigit (digits_onto f n s)
unfolding digits_onto is_digit
digits_onto-StartsDigit zero n s h = elim h [ ]
digits_onto-StartsDigit (suc f) n s h = elim (Bool-cases (ltb n 10)) [
  | inl small ↦ rw small (ground arith)
  | inr big ↦ rw big (digits_onto-StartsDigit f (n / 10) _ (ground arith))
]

-- Every byte is a digit or a minus sign.
abbrev pub IsNumeral : Bytes → Type 0
IsNumeral = All (λ c. (c ≡ b'-') ⊎ (is_digit c ≡ true))

digits_onto-IsNumeral : (f n : ℕ) (s : Bytes) → n < f → IsNumeral s → IsNumeral (digits_onto f n s)
unfolding digits_onto is_digit
digits_onto-IsNumeral zero n s h k = k
digits_onto-IsNumeral (suc f) n s h k = elim (Bool-cases (ltb n 10)) [
  | inl small ↦ rw small (inr (ground arith), k)
  | inr big ↦ rw big (digits_onto-IsNumeral f (n / 10) _ (ground arith) (inr (ground arith), k))
]

pub show_ℤ-IsNumeral : (a : ℤ) → IsNumeral (show_ℤ a)
unfolding show_ℤ
show_ℤ-IsNumeral (pos n) = digits_onto-IsNumeral (suc n) n [] (omega arith) tt
show_ℤ-IsNumeral (negsuc n) =
    (inl refl, digits_onto-IsNumeral (suc (suc n)) (suc n) [] (omega arith) tt)

read_digits-StartsDigit : (s : Bytes) → StartsDigit s → read_digits s ≡ some (scan 0 s)
unfolding read_digits
read_digits-StartsDigit [] h = absurd h
read_digits-StartsDigit (c ∷ s) h = rw h refl

read_digits-show_ℕ : (n : ℕ) → read_digits (show_ℕ n) ≡ some n
unfolding show_ℕ scan
read_digits-show_ℕ n =
    read_digits-StartsDigit _ (digits_onto-StartsDigit (suc n) n [] (omega arith))
    ∙ ap some (scan-digits_onto (suc n) n [] (omega arith))

from_chars-StartsDigit :
    (limit : ℕ) (s : Bytes) (v : ℕ)
    → StartsDigit s
    → read_digits s ≡ some v
    → v < limit
    → from_chars limit s ≡ some (pos v)
unfolding from_chars
from_chars-StartsDigit limit [] v d r h = absurd d
from_chars-StartsDigit limit (c ∷ s) v d r h = ground arith

-- Reading the decimal text of an integer gives the integer, if it is in the range of the type.
pub from_chars-show_ℤ : (limit : ℕ) (a : ℤ) → InRange limit a → from_chars limit (show_ℤ a) ≡ some a
unfolding from_chars show_ℤ
from_chars-show_ℤ limit (pos n) h =
    from_chars-StartsDigit limit (show_ℕ n) n (digits_onto-StartsDigit (suc n) n [] (omega arith))
      (read_digits-show_ℕ n) h.0
from_chars-show_ℤ limit (negsuc n) h = rw (read_digits-show_ℕ (suc n)) (ground arith)

digits_onto-append : (f n : ℕ) (s r : Bytes) → digits_onto f n s ++ r ≡ digits_onto f n (s ++ r)
unfolding digits_onto
digits_onto-append zero n s r = refl
digits_onto-append (suc f) n s r = elim (Bool-cases (ltb n 10)) [
  | inl small ↦ rw small refl
  | inr big ↦ rw big (digits_onto-append f (n / 10) ((b'0' + n % 10) ∷ s) r)
]

-- A number is read up to the first byte that is no digit, whatever follows it.
pub from_chars_prefix :
    (limit n c : ℕ) (r : Bytes)
    → n < limit
    → is_digit c ≡ false
    → from_chars limit (show_ℕ n ++ c ∷ r) ≡ some (pos n)
unfolding show_ℕ scan
from_chars_prefix limit n c r h k = rw (digits_onto-append (suc n) n [] (c ∷ r)) (
    from_chars-StartsDigit limit _ n (digits_onto-StartsDigit (suc n) n (c ∷ r) (omega arith))
      (read_digits-StartsDigit _ (digits_onto-StartsDigit (suc n) n (c ∷ r) (omega arith))
        ∙ ap some (scan-digits_onto (suc n) n (c ∷ r) (omega arith) ∙ rw k refl))
      h)

in_range_pos-InRange : (limit v : ℕ) (a : ℤ) → in_range_pos limit v ≡ some a → InRange limit a
unfolding in_range_pos
in_range_pos-InRange limit v a h = ground arith

in_range_neg-InRange :
    (limit v : ℕ) (a : ℤ) → 0 < limit → in_range_neg limit v ≡ some a → InRange limit a
unfolding in_range_neg
in_range_neg-InRange limit v a k h = ground arith

signed-InRange :
    (limit : ℕ) (minus : Bool) (r q : Option ℕ) (a : ℤ)
    → 0 < limit
    → (if minus
        then elim r [ none ↦ none | some v ↦ in_range_neg limit v ]
        else elim q [ none ↦ none | some v ↦ in_range_pos limit v ])
      ≡ some a
    → InRange limit a
signed-InRange limit true none q a k h = ground arith
signed-InRange limit true (some v) q a k h = in_range_neg-InRange limit v a k h
signed-InRange limit false r none a k h = ground arith
signed-InRange limit false r (some v) a k h = in_range_pos-InRange limit v a h

-- An integer that is read is in the range of its type.
pub from_chars-InRange :
    (limit : ℕ) (s : Bytes) (a : ℤ) → 0 < limit → from_chars limit s ≡ some a → InRange limit a
unfolding from_chars
from_chars-InRange limit [] a k h = ground arith
from_chars-InRange limit (c ∷ s) a k h =
    signed-InRange limit (c == b'-') (read_digits s) (read_digits (c ∷ s)) a k h
