-- ===== src/Utils/Jwt.antt =====
-- `extract_jwt_payload`. The decoder of base64 is a parameter.
use libtd.Base.{
  ℕ, zero, suc, ◌+◌, ◌%◌, ◌≤◌, Bool, true, false, ◌||◌, ◌==◌, if◌then◌else◌, Bool-cases, inl, inr,
  Option, none, some, [], ◌∷◌, ◌++◌, length, length-append, ◌≡◌, ◌≢◌, ◌⊎◌, arith, Result, ◌>>=◌,
  ◌>>◌, guard, or_throw, runtime_error,
}
use libtd.Text.{Bytes}
use libtd.Json.{JsonLib}

push : ℕ → Bytes × Bytes → Bytes × Bytes
push c (w, s) = (c ∷ w, s)

-- `[^\.]*`: what stands before the first dot, and the rest.
unfoldable pub before_dot : Bytes → Bytes × Bytes
unfolding push
before_dot [] = ([], [])
before_dot (c ∷ s) = let rest = push c (before_dot s) in if c == b'.' then ([], c ∷ s) else rest

-- `.*`, which passes over no line break.
unfoldable pub is_line : Bytes → Bool
is_line [] = true
is_line (c ∷ s) = let rest = is_line s in if c == 10 || c == 13 then false else rest

unfoldable pub not_empty : Bytes → Option Bytes
not_empty [] = none
not_empty (c ∷ s) = some (c ∷ s)

unfoldable pub second_part : Bytes × Bytes → Option Bytes
unfolding is_line not_empty
second_part (part, rest) = if is_line rest then not_empty part else none

unfoldable pub after_first : Bytes × Bytes → Option Bytes
unfolding before_dot second_part
after_first ([], s) = none
after_first (c ∷ w, []) = none
after_first (c ∷ w, dot ∷ s) = second_part (before_dot s)

-- The group of `^[^\.]+\.([^\.]+).*$`, where the text matches.
unfoldable pub match_payload : Bytes → Option Bytes
unfolding before_dot after_first
match_payload s = after_first (before_dot s)

-- The loop that pads, by the rounds that are left.
unfoldable pub pad_loop : ℕ → Bytes → Bytes
pad_loop zero s = s
pad_loop (suc left) s =
    let rest = pad_loop left (s ++ b'=' ∷ []) in if length s % 4 == 0 then s else rest

-- Three rounds are enough.
unfoldable pub pad : Bytes → Bytes
unfolding pad_loop
pad s = pad_loop 3 s

module _ {D : Type 0} (J : JsonLib D) (decode : Bytes → Result Bytes) where
  unfoldable pub extract_jwt_payload : J.Json → Result J.Json
  unfolding match_payload pad
  extract_jwt_payload jwt = do
    guard (J.is_string jwt) runtime_error
    payload ← or_throw (match_payload (J.dump jwt)) runtime_error
    decoded ← decode (pad payload)
    J.parse decoded

-- The rounds that are left are enough to reach a multiple of four.
abbrev IsInReach : ℕ → ℕ → Type 0
IsInReach left n = (n % 4 ≡ 0) ⊎ (4 ≤ n % 4 + left)

reach_next : (left n : ℕ) → IsInReach (suc left) n → n % 4 ≢ 0 → IsInReach left (n + 1)
reach_next left n (inl h) k = absurd (k h)
reach_next left n (inr h) k = elim (Bool-cases (n % 4 == 3)) [
  | inl three ↦ inl (ground arith)
  | inr less ↦ inr (ground arith)
]

pad_loop-length :
    (left : ℕ) (s : Bytes) → IsInReach left (length s) → length (pad_loop left s) % 4 ≡ 0
unfolding pad_loop
pad_loop-length zero s (inl h) = h
pad_loop-length zero s (inr h) = absurd (omega (arith, h))
pad_loop-length (suc left) s h = elim (Bool-cases (length s % 4 == 0)) [
  | inl done ↦ rw done (ground arith)
  | inr more ↦ rw more (
      pad_loop-length left (s ++ b'=' ∷ [])
        (rw (length-append s (b'=' ∷ [])) (reach_next left (length s) h (ground arith))))
]

at_first : (n : ℕ) → IsInReach 3 n
at_first n = elim (Bool-cases (n % 4 == 0)) [
  | inl zero_left ↦ inl (ground arith)
  | inr some_left ↦ inr (ground arith)
]

-- The padded text has a length that is a multiple of four, which is the loop's condition to end.
pub pad-length : (s : Bytes) → length (pad s) % 4 ≡ 0
unfolding pad
pad-length s = pad_loop-length 3 s (at_first (length s))
