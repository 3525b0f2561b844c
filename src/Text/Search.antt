-- ===== src/Text/Search.antt =====
-- `find` on strings: the position of the first occurrence.
use libtd.Base.{
  ℕ, suc, Bool, true, false, ◌&&◌, Option, none, some, [], ◌∷◌, ◌++◌, take, drop, length, ◌==◌, ◌≡◌,
  refl, ap, arith, if◌then◌else◌,
}
use libtd.Text.{Bytes}
use libtd.Text.Split.{Free}

unfoldable pub starts_with : Bytes → Bytes → Bool
starts_with [] s = true
starts_with (k ∷ key) [] = false
starts_with (k ∷ key) (c ∷ s) = k == c && starts_with key s

next_position : Option ℕ → Option ℕ
next_position none = none
next_position (some n) = some (suc n)

unfoldable pub find : Bytes → Bytes → Option ℕ
unfolding starts_with next_position
find key [] = if starts_with key [] then some 0 else none
find key (c ∷ s) =
    let rest = next_position (find key s) in if starts_with key (c ∷ s) then some 0 else rest

-- The key starts at no place of the first text, with the second behind it.
abbrev pub StartsNowhere : Bytes → Bytes → Bytes → Type 0
StartsNowhere key [] rest = Unit
StartsNowhere key (c ∷ s) rest =
    (starts_with key (c ∷ s ++ rest) ≡ false) × StartsNowhere key s rest

starts_with-append : (key s : Bytes) → starts_with key (key ++ s) ≡ true
unfolding starts_with
starts_with-append [] s = refl
starts_with-append (k ∷ key) s = ground (arith, starts_with-append key s)

find-here : (key s : Bytes) → find key (key ++ s) ≡ some 0
unfolding find starts_with
find-here [] [] = refl
find-here [] (c ∷ s) = refl
find-here (k ∷ key) s = ground (arith, starts_with-append key s)

pub find-append :
    (key before s : Bytes)
    → StartsNowhere key before (key ++ s)
    → find key (before ++ (key ++ s)) ≡ some (length before)
unfolding find next_position
find-append key [] s h = find-here key s
find-append key (c ∷ before) s h = rw (h.0, find-append key before s h.1) refl

-- A single byte is found behind a text that is free of it.
pub find_byte :
    (b : ℕ) (value s : Bytes) → Free b value → find (b ∷ []) (value ++ b ∷ s) ≡ some (length value)
unfolding find next_position starts_with
find_byte b [] s h = ground arith
find_byte b (c ∷ value) s h = ground (arith, find_byte b value s h.1)

pub find_byte-none : (b : ℕ) (s : Bytes) → Free b s → find (b ∷ []) s ≡ none
unfolding find next_position starts_with
find_byte-none b [] h = refl
find_byte-none b (c ∷ s) h = ground (arith, find_byte-none b s h.1)

pub take-length : (xs ys : Bytes) → take (length xs) (xs ++ ys) ≡ xs
take-length [] ys = refl
take-length (x ∷ xs) ys = ap (◌∷◌ x) (take-length xs ys)

pub drop-length : (xs ys : Bytes) → drop (length xs) (xs ++ ys) ≡ ys
drop-length [] ys = refl
drop-length (x ∷ xs) ys = drop-length xs ys

pub drop-length-suc : (xs ys : Bytes) (y : ℕ) → drop (suc (length xs)) (xs ++ y ∷ ys) ≡ ys
drop-length-suc [] ys y = refl
drop-length-suc (x ∷ xs) ys y = drop-length-suc xs ys y
