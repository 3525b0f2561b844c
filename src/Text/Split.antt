-- ===== src/Text/Split.antt =====
-- std::views::split on one byte, and the text that a chain of `<<` with a separator writes.
use libtd.Base.{
  ℕ, false, List, [], ◌∷◌, ◌++◌, All, ◌==◌, ◌≡◌, ◌≢◌, refl, ap, ◌∙◌, arith, if◌then◌else◌,
  Bool-cases, inl, inr,
}
use libtd.Text.{Bytes}

cons_head : ℕ → List Bytes → List Bytes
cons_head c [] = (c ∷ []) ∷ []
cons_head c (p ∷ ps) = (c ∷ p) ∷ ps

-- The pieces of a text that is not empty: one more than its separators.
pub pieces : ℕ → Bytes → List Bytes
unfolding cons_head
pieces sep [] = [] ∷ []
pieces sep (c ∷ s) = if c == sep then [] ∷ pieces sep s else cons_head c (pieces sep s)

-- The empty range has no pieces at all.
unfoldable pub split : ℕ → Bytes → List Bytes
unfolding pieces
split sep [] = []
split sep (c ∷ s) = pieces sep (c ∷ s)

unfoldable pub join : ℕ → List Bytes → Bytes
join sep [] = []
join sep (p ∷ []) = p
join sep (p ∷ q ∷ ps) = p ++ sep ∷ join sep (q ∷ ps)

-- No byte of the text is the separator.
abbrev pub Free : ℕ → Bytes → Type 0
Free sep = All (λ c. (c == sep) ≡ false)

pieces_self : (sep : ℕ) (p : Bytes) → Free sep p → pieces sep p ≡ p ∷ []
unfolding pieces
pieces_self sep [] h = refl
pieces_self sep (c ∷ p) h = rw (h.0, pieces_self sep p h.1) refl

pieces-append : (sep : ℕ) (p s : Bytes) → Free sep p → pieces sep (p ++ sep ∷ s) ≡ p ∷ pieces sep s
unfolding pieces
pieces-append sep [] s h = ground arith
pieces-append sep (c ∷ p) s h = rw (h.0, pieces-append sep p s h.1) refl

pub pieces-join :
    (sep : ℕ) (p : Bytes) (ps : List Bytes)
    → All (Free sep) (p ∷ ps)
    → pieces sep (join sep (p ∷ ps)) ≡ p ∷ ps
unfolding join
pieces-join sep p [] h = pieces_self sep p h.0
pieces-join sep p (q ∷ ps) h =
    pieces-append sep p (join sep (q ∷ ps)) h.0 ∙ ap (◌∷◌ p) (pieces-join sep q ps h.1)

split-pieces : (sep : ℕ) (s : Bytes) → s ≢ [] → split sep s ≡ pieces sep s
unfolding split
split-pieces sep [] h = absurd (h refl)
split-pieces sep (c ∷ s) h = refl

join-ne-nil : (sep : ℕ) (p q : Bytes) (ps : List Bytes) → join sep (p ∷ q ∷ ps) ≢ []
unfolding join
join-ne-nil sep [] q ps = λ e. cc
join-ne-nil sep (c ∷ p) q ps = λ e. cc

-- Splitting two or more texts joined by a separator that none of them holds gives them back.
pub split-join :
    (sep : ℕ) (p q : Bytes) (ps : List Bytes)
    → All (Free sep) (p ∷ q ∷ ps)
    → split sep (join sep (p ∷ q ∷ ps)) ≡ p ∷ q ∷ ps
split-join sep p q ps h = split-pieces sep _ (join-ne-nil sep p q ps) ∙ pieces-join sep p (q ∷ ps) h

cons_head-Free :
    (sep c : ℕ) (ps : List Bytes)
    → (c == sep) ≡ false
    → All (Free sep) ps
    → All (Free sep) (cons_head c ps)
unfolding cons_head
cons_head-Free sep c [] h k = ((h, tt), tt)
cons_head-Free sep c (p ∷ ps) h k = ((h, k.0), k.1)

pieces-Free : (sep : ℕ) (s : Bytes) → All (Free sep) (pieces sep s)
unfolding pieces
pieces-Free sep [] = (tt, tt)
pieces-Free sep (c ∷ s) = elim (Bool-cases (c == sep)) [
  | inl ends ↦ rw ends (tt, pieces-Free sep s)
  | inr stays ↦ rw stays (cons_head-Free sep c (pieces sep s) stays (pieces-Free sep s))
]

-- No piece of a text holds the separator.
pub split-Free : (sep : ℕ) (s : Bytes) → All (Free sep) (split sep s)
unfolding split
split-Free sep [] = tt
split-Free sep (c ∷ s) = pieces-Free sep (c ∷ s)
