-- ===== src/Parsing/Fields.antt =====
-- The fields of a line: it is split on commas into an array of fixed size, and the fields behind the
-- last one of the array are not looked at.
use libtd.Base.Int.{ℤ}
use libtd.Text.Decimal.{is_digit, IsNumeral, show_ℤ, show_ℤ-IsNumeral}
use libtd.Base.{
  ℕ, zero, suc, ◌<◌, List, [], ◌∷◌, ◌++◌, All, All-append, length, take, get_or, ◌==◌, ◌≡◌, refl,
  ap, arith, if◌then◌else◌, Error, Result, ok, err, Gives, Bool-cases, inl, inr, All-take,
  All-get_or,
}
use libtd.Text.{Bytes}
use libtd.Text.Split.{split, join, Free, pieces-join, split-join, split-Free}

unfoldable pub split_fields : ℕ → Error → Bytes → Result (List Bytes)
split_fields expected e line =
    let fields = take expected (split b',' line) in
    if length fields == expected then ok fields else err e

abbrev pub field : List Bytes → ℕ → Bytes
field fs i = get_or fs i []

take-append : (ps qs : List Bytes) → take (length ps) (ps ++ qs) ≡ ps
take-append [] qs = refl
take-append (p ∷ ps) qs = ap (◌∷◌ p) (take-append ps qs)

length-take-lt : (n : ℕ) (ps : List Bytes) → length ps < n → length (take n ps) ≡ length ps
length-take-lt zero ps h = elim h [ ]
length-take-lt (suc n) [] h = refl
length-take-lt (suc n) (p ∷ ps) h = ap suc (length-take-lt n ps (omega arith))

-- With as many fields as expected, or more, the first ones are the result.
pub split_fields-join :
    (e : Error) (p q : Bytes) (ps extra : List Bytes)
    → All (Free b',') (p ∷ q ∷ ps)
    → All (Free b',') extra
    → split_fields (length (p ∷ q ∷ ps)) e (join b',' (p ∷ q ∷ (ps ++ extra))) ≡ ok (p ∷ q ∷ ps)
unfolding split_fields
split_fields-join e p q ps extra h k =
    rw (split-join b',' p q (ps ++ extra) (h.0, (h.1.0, All-append (Free b',') ps extra h.1.1 k)))
      (rw (take-append ps extra) (ground arith))

-- With fewer fields than expected, the line is refused. The empty line has none.
pub split_fields-short :
    (n : ℕ) (e : Error) (ps : List Bytes)
    → All (Free b',') ps
    → length ps < n
    → split_fields n e (join b',' ps) ≡ err e
unfolding split_fields split join
split_fields-short zero e ps h k = elim k [ ]
split_fields-short (suc n) e [] h k = ground arith
split_fields-short (suc n) e ([] ∷ []) h k = ground arith
split_fields-short (suc n) e ((c ∷ p) ∷ []) h k =
    rw (pieces-join b',' (c ∷ p) [] h) (rw (length-take-lt (suc n) ((c ∷ p) ∷ []) k) (ground arith))
split_fields-short (suc n) e (p ∷ q ∷ ps) h k =
    unfold split_fields in
    rw (split-join b',' p q ps h, length-take-lt (suc n) (p ∷ q ∷ ps) k) (ground arith)

numeral-Free : (s : Bytes) → IsNumeral s → Free b',' s
unfolding is_digit
numeral-Free [] h = tt
numeral-Free (c ∷ s) h = (ground arith, numeral-Free s h.1)

-- A written integer is one field.
pub show_ℤ-Free : (a : ℤ) → Free b',' (show_ℤ a)
show_ℤ-Free a = numeral-Free (show_ℤ a) (show_ℤ-IsNumeral a)

-- No field that a line is split into holds a comma.
pub split_fields-Free :
    (n : ℕ) (e : Error) (line : Bytes) → Gives (All (Free b',')) (split_fields n e line)
unfolding split_fields Gives
split_fields-Free n e line = elim (Bool-cases (length (take n (split b',' line)) == n)) [
  | inl as_expected ↦ rw as_expected (All-take (Free b',') n _ (split-Free b',' line))
  | inr short ↦ rw short tt
]

pub field-Free : (fs : List Bytes) (i : ℕ) → All (Free b',') fs → Free b',' (field fs i)
field-Free fs i h = All-get_or (Free b',') fs i [] h tt
