-- ===== src/RestApi/Urls.antt =====
-- `fix_url`, up to the parse of the URL, which is Boost's.
use libtd.Base.{
  ℕ, zero, suc, ◌+◌, ◌≤◌, ◌⊎◌, inl, inr, Option, none, some, [], ◌∷◌, ◌++◌, take, drop, length,
  length-append, ◌==◌, ◌≡◌, refl, ap, sym, ◌∙◌, arith, if◌then◌else◌, Bool-cases,
}
use mathlib.Core.List.{append_assoc}
use libtd.Text.{Bytes, codes}
use libtd.Text.Split.{Free}
use libtd.Text.Search.{find, find_byte, find_byte-none, take-length, drop-length, drop-length-suc}

behind : ℕ → Option ℕ → Option ℕ
behind pos none = none
behind pos (some n) = some (pos + n)

-- `s.find(' ', pos)`
unfoldable pub find_from : ℕ → Bytes → Option ℕ
unfolding find behind
find_from pos s = behind pos (find (b' ' ∷ []) (drop pos s))

-- `s.replace(pos, 1, "%20")`
unfoldable pub replace : ℕ → Bytes → Bytes
replace pos s = take pos s ++ (codes "%20" ++ drop (suc pos) s)

-- The loop ends with the text when nothing is found, or goes on at what is found.
unfoldable pub round : Bytes → (ℕ → Bytes) → Option ℕ → Bytes
round s loop none = s
round s loop (some n) = loop n

-- The loop, with fuel for its rounds.
unfoldable pub replace_loop : ℕ → ℕ → Bytes → Bytes
unfolding find_from replace round
replace_loop zero pos s = s
replace_loop (suc fuel) pos s =
    round s (λ n. replace_loop fuel (n + 3) (replace n s)) (find_from pos s)

-- Each round consumes a byte of what is left, so that the length of the text is fuel enough.
unfoldable pub replace_spaces : Bytes → Bytes
unfolding replace_loop
replace_spaces s = replace_loop (length s) 0 s

-- The same byte by byte.
unfoldable pub encode : Bytes → Bytes
encode [] = []
encode (c ∷ s) = if c == b' ' then codes "%20" ++ encode s else c ∷ encode s

-- A text has no space, or a first one.
pub First : Bytes → Type 0
First s = (a : Bytes) × (b : Bytes) × (s ≡ a ++ b' ' ∷ b) × Free b' ' a

First-cases : (s : Bytes) → Free b' ' s ⊎ First s
unfolding First
First-cases [] = inl tt
First-cases (c ∷ s) = elim (Bool-cases (c == b' ')) [
  | inl here ↦ inr ([], s, ground arith, tt)
  | inr there ↦ elim (First-cases s) [
    | inl f ↦ inl (there, f)
    | inr (a, b, e, f) ↦ inr (c ∷ a, b, ap (◌∷◌ c) e, (there, f))
  ]
]

encode-Free : (s : Bytes) → Free b' ' s → encode s ≡ s
unfolding encode
encode-Free [] f = refl
encode-Free (c ∷ s) f = rw (f.0, encode-Free s f.1) refl

encode-first : (a b : Bytes) → Free b' ' a → encode (a ++ b' ' ∷ b) ≡ a ++ (codes "%20" ++ encode b)
unfolding encode
encode-first [] b f = refl
encode-first (c ∷ a) b f = rw (f.0, encode-first a b f.1) refl

find_from-none : (p s : Bytes) → Free b' ' s → find_from (length p) (p ++ s) ≡ none
unfolding find_from behind
find_from-none p s f = rw (drop-length p s, find_byte-none b' ' s f) refl

find_from-some :
    (p a b : Bytes)
    → Free b' ' a
    → find_from (length p) (p ++ (a ++ b' ' ∷ b)) ≡ some (length (p ++ a))
unfolding find_from behind
find_from-some p a b f =
    rw (drop-length p (a ++ b' ' ∷ b), find_byte b' ' a b f) (ap some (sym (length-append p a)))

replace-at : (q b : Bytes) → replace (length q) (q ++ b' ' ∷ b) ≡ (q ++ codes "%20") ++ b
unfolding replace
replace-at q b =
    rw (take-length q (b' ' ∷ b), drop-length-suc q b b' ') (sym (append_assoc q (codes "%20") b))

-- One round, for a text whose first space lies behind `a`.
replace_loop-round :
    (fuel : ℕ) (p a b : Bytes)
    → Free b' ' a
    → replace_loop (suc fuel) (length p) (p ++ (a ++ b' ' ∷ b))
      ≡ replace_loop fuel (length ((p ++ a) ++ codes "%20")) (((p ++ a) ++ codes "%20") ++ b)
unfolding replace_loop round
replace_loop-round fuel p a b f = rw (find_from-some p a b f) (
    rw
      (
        sym (append_assoc p a (b' ' ∷ b)),
        replace-at (p ++ a) b,
        length-append (p ++ a) (codes "%20"),
      )
      refl)

regroup :
    (p a b : Bytes) → ((p ++ a) ++ codes "%20") ++ encode b ≡ p ++ (a ++ (codes "%20" ++ encode b))
regroup p a b =
    append_assoc (p ++ a) (codes "%20") (encode b) ∙ append_assoc p a (codes "%20" ++ encode b)

replace_loop-encode :
    (fuel : ℕ) (p s : Bytes)
    → length s ≤ fuel
    → replace_loop fuel (length p) (p ++ s) ≡ p ++ encode s
unfolding replace_loop round encode First
replace_loop-encode zero p [] h = refl
replace_loop-encode zero p (c ∷ s) h = ground arith
replace_loop-encode (suc fuel) p s h = elim (First-cases s) [
  | inl f ↦ rw (find_from-none p s f, encode-Free s f) refl
  | inr (a, b, e, f) ↦ rw e (
      replace_loop-round fuel p a b f
      ∙ replace_loop-encode fuel ((p ++ a) ++ codes "%20") b
          (omega (arith, ap length e, length-append a (b' ' ∷ b)))
      ∙ regroup p a b
      ∙ ap (p ++◌) (sym (encode-first a b f)))
]

-- The loop of fix_url that replaces spaces in place gives the text with every space written as
-- %20 and every other byte as it was.
pub replace_spaces-encode : (s : Bytes) → replace_spaces s ≡ encode s
unfolding replace_spaces
replace_spaces-encode s = replace_loop-encode (length s) [] s (omega arith)
