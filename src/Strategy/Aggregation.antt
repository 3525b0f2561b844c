-- ===== src/Strategy/Aggregation.antt =====
-- The loops of `candle_agg`, and what a candle says of the ticks that it is built from.
use mathlib.Core.List.{
  append-nil, append_assoc, Mem, mem-cons_self, mem-append_left, mem-append_right,
}
use libtd.Base.{
  subst, ℕ, ◌+◌, ◌≤◌, ◌<◌, true, false, Bool-cases, inl, inr, List, [], ◌∷◌, ◌++◌, All, length, map,
  ◌≡◌, ◌≢◌, refl, sym, ◌∙◌, arith, Result, ok, err, undefined, ◌>>=◌,
}
use libtd.Base.Int.{ℤ, eqb_ℤ, eqb_ℤ_iff}
use libtd.Types.Tick.{Tick}
use libtd.Types.Candle.{Candle}
use libtd.Strategy.Candles.{
  Doubles, History, CandleAgg, tick_bucket, max, min, on_tick, write, start_candle, extend, roll,
}

module _ {D : Type 0} where
  unfoldable pub write_all : ℕ → List (Candle D) → History D → Result (History D)
  unfolding write
  write_all i [] h = ok h
  write_all i (c ∷ cs) h = do h' ← write i c h; write_all (i + 1) cs h'

  unfoldable pub backfill : List (Candle D) → CandleAgg D → Result (CandleAgg D)
  unfolding write_all
  backfill v s = do h ← write_all 0 v s.history; ok (record s { history = h })

  -- Up to three candles are taken in, and a fourth is written past the end of the array.
  pub backfill_fits :
      (v : List (Candle D)) (s : CandleAgg D)
      → length v ≤ 3
      → (s' : CandleAgg D) × (backfill v s ≡ ok s')
  unfolding backfill
  backfill_fits [] s h = (s, refl)
  backfill_fits (a ∷ []) s h = (record s { history = record (s.history) { latest = a } }, refl)
  backfill_fits (a ∷ b ∷ []) s h =
      (record s { history = record (s.history) { latest = a; previous = b } }, refl)
  backfill_fits (a ∷ b ∷ c ∷ []) s h =
      (record s { history = record { latest = a; previous = b; oldest = c } }, refl)
  backfill_fits (a ∷ b ∷ c ∷ d ∷ v) s h = absurd (omega arith)

  pub backfill_overflows :
      (v : List (Candle D)) (s : CandleAgg D) → 3 < length v → backfill v s ≡ err undefined
  unfolding backfill
  backfill_overflows [] s h = absurd (omega arith)
  backfill_overflows (a ∷ []) s h = absurd (omega arith)
  backfill_overflows (a ∷ b ∷ []) s h = absurd (omega arith)
  backfill_overflows (a ∷ b ∷ c ∷ []) s h = absurd (omega arith)
  backfill_overflows (a ∷ b ∷ c ∷ d ∷ v) s h = refl

  abbrev pub last : D → List D → D
  last p [] = p
  last p (q ∷ qs) = last q qs

  last-append : (p q : D) (ps : List D) → last p (ps ++ q ∷ []) ≡ q
  last-append p q [] = refl
  last-append p q (r ∷ ps) = last-append r q ps

  All-snoc : (P : D → Type 0) (ps : List D) (q : D) → All P ps → P q → All P (ps ++ q ∷ [])
  All-snoc P [] q h k = (k, tt)
  All-snoc P (p ∷ ps) q h k = (h.0, All-snoc P ps q h.1 k)

  All-map : (P Q : D → Type 0) → ((p : D) → P p → Q p) → (ps : List D) → All P ps → All Q ps
  All-map P Q f [] h = tt
  All-map P Q f (p ∷ ps) h = (f p h.0, All-map P Q f ps h.1)

module _ {D : Type 0} (F : Doubles D) where
  open F use {less}

  -- The candle of a first price and those that follow: a high and a low are among the prices, and no
  -- price lies beyond them.
  pub record Summarises (p : D) (ps : List D) (c : Candle D) : Type 0 where
    pub opens : c.open_price ≡ p
    pub closes : c.close ≡ last p ps
    pub high_mem : Mem c.high (p ∷ ps)
    pub highest : All (λ q. less c.high q ≡ false) (p ∷ ps)
    pub low_mem : Mem c.low (p ∷ ps)
    pub lowest : All (λ q. less q c.low ≡ false) (p ∷ ps)

  start_candle-Summarises : (now : ℤ) (p : D) → Summarises p [] (start_candle F now p)
  unfolding start_candle
  start_candle-Summarises now p = record {
    opens = refl;
    closes = refl;
    high_mem = mem-cons_self;
    highest = (F.less_irrefl p, tt);
    low_mem = mem-cons_self;
    lowest = (F.less_irrefl p, tt);
  }

  -- What lies on no side of a bound lies on no side of one beyond it.
  above : (a b r : D) → less a b ≡ true → less a r ≡ false → less b r ≡ false
  above a b r h k = elim (Bool-cases (less b r)) [
    | inl up ↦ cc (F.less_trans a b r h up)
    | inr down ↦ down
  ]

  below : (a b r : D) → less b a ≡ true → less r a ≡ false → less r b ≡ false
  below a b r h k = elim (Bool-cases (less r b)) [
    | inl up ↦ cc (F.less_trans r b a up h)
    | inr down ↦ down
  ]

  max-mem : (a q : D) (ps : List D) → Mem a ps → Mem (max F a q) (ps ++ q ∷ [])
  unfolding max
  max-mem a q ps m = elim (Bool-cases (less a q)) [
    | inl up ↦ rw up (mem-append_right ps mem-cons_self)
    | inr down ↦ rw down (mem-append_left (q ∷ []) m)
  ]

  max-highest :
      (a q : D) (ps : List D)
      → All (λ r. less a r ≡ false) ps
      → All (λ r. less (max F a q) r ≡ false) (ps ++ q ∷ [])
  unfolding max
  max-highest a q ps h = elim (Bool-cases (less a q)) [
    | inl up ↦ rw up (
        All-snoc _ ps q (All-map (λ r. less a r ≡ false) _ (λ r k. above a q r up k) ps h)
          (F.less_irrefl q))
    | inr down ↦ rw down (All-snoc (λ r. less a r ≡ false) ps q h down)
  ]

  min-mem : (a q : D) (ps : List D) → Mem a ps → Mem (min F a q) (ps ++ q ∷ [])
  unfolding min
  min-mem a q ps m = elim (Bool-cases (less q a)) [
    | inl up ↦ rw up (mem-append_right ps mem-cons_self)
    | inr down ↦ rw down (mem-append_left (q ∷ []) m)
  ]

  min-lowest :
      (a q : D) (ps : List D)
      → All (λ r. less r a ≡ false) ps
      → All (λ r. less r (min F a q) ≡ false) (ps ++ q ∷ [])
  unfolding min
  min-lowest a q ps h = elim (Bool-cases (less q a)) [
    | inl up ↦ rw up (
        All-snoc _ ps q (All-map (λ r. less r a ≡ false) _ (λ r k. below a q r up k) ps h)
          (F.less_irrefl q))
    | inr down ↦ rw down (All-snoc (λ r. less r a ≡ false) ps q h down)
  ]

  extend-Summarises :
      (p q : D) (ps : List D) (c : Candle D)
      → Summarises p ps c
      → Summarises p (ps ++ q ∷ []) (extend F q c)
  unfolding extend
  extend-Summarises p q ps c h = record {
    opens = h.opens;
    closes = sym (last-append p q ps);
    high_mem = max-mem c.high q (p ∷ ps) h.high_mem;
    highest = max-highest c.high q (p ∷ ps) h.highest;
    low_mem = min-mem c.low q (p ∷ ps) h.low_mem;
    lowest = min-lowest c.low q (p ∷ ps) h.lowest;
  }

  -- Ticks one after the other, each with the time of the system clock.
  unfoldable pub on_ticks : List (ℤ × Tick D) → CandleAgg D → CandleAgg D
  on_ticks [] s = s
  on_ticks ((now, t) ∷ ts) s = on_ticks ts (on_tick F now t s)

  abbrev pub prices : List (ℤ × Tick D) → List D
  prices = map (λ t. t.1.mid_price)

  on_tick_same :
      (now : ℤ) (t : Tick D) (s : CandleAgg D)
      → tick_bucket t.timestamp ≡ s.current_bucket
      → on_tick F now t s ≡ record s { current = extend F t.mid_price s.current }
  unfolding on_tick
  on_tick_same now t s h = rw ((eqb_ℤ_iff (tick_bucket t.timestamp) s.current_bucket).1 h) refl

  on_ticks-Summarises :
      (b : ℤ) (p : D) (ps : List D) (ts : List (ℤ × Tick D)) (s : CandleAgg D)
      → s.current_bucket ≡ b
      → Summarises p ps s.current
      → All (λ t. tick_bucket (t.1.timestamp) ≡ b) ts
      → Summarises p (ps ++ prices ts) ((on_ticks ts s).current)
        × ((on_ticks ts s).history ≡ s.history)
  unfolding on_ticks
  on_ticks-Summarises b p ps [] s e h same = (rw (append-nil ps) h, refl)
  on_ticks-Summarises b p ps ((now, t) ∷ ts) s e h same =
      subst
        (λ s'.
          Summarises p (ps ++ t.mid_price ∷ prices ts) ((on_ticks ts s').current)
          × ((on_ticks ts s').history ≡ s.history))
        (sym (on_tick_same now t s (same.0 ∙ sym e)))
        (rw (← append_assoc ps (t.mid_price ∷ []) (prices ts)) (
          on_ticks-Summarises b p (ps ++ t.mid_price ∷ []) ts
            (record s { current = extend F t.mid_price s.current }) e
            (extend-Summarises p t.mid_price ps s.current h) same.1))

  on_tick_other :
      (now : ℤ) (t : Tick D) (s : CandleAgg D)
      → tick_bucket t.timestamp ≢ s.current_bucket
      → on_tick F now t s ≡ record s {
        history = roll F s.current s.history;
        current = start_candle F now t.mid_price;
        current_bucket = tick_bucket t.timestamp;
        elapsed_candles = s.elapsed_candles + 1;
      }
  unfolding on_tick
  on_tick_other now t s other =
      elim (Bool-cases (eqb_ℤ (tick_bucket t.timestamp) s.current_bucket)) [
        | inl same ↦ absurd (other ((eqb_ℤ_iff (tick_bucket t.timestamp) s.current_bucket).0 same))
        | inr new ↦ rw new refl
      ]

  -- The candle that a tick of a new minute starts and later ticks of the same minute extend opens
  -- at the first price and closes at the last, its high is one of the prices with none above it,
  -- its low is one with none below it, and the candle before it has become the latest of the
  -- three kept.
  pub on_tick-Summarises :
      (now : ℤ) (t : Tick D) (ts : List (ℤ × Tick D)) (s : CandleAgg D)
      → tick_bucket t.timestamp ≢ s.current_bucket
      → All (λ u. tick_bucket (u.1.timestamp) ≡ tick_bucket t.timestamp) ts
      → Summarises t.mid_price (prices ts) ((on_ticks ts (on_tick F now t s)).current)
        × ((on_ticks ts (on_tick F now t s)).history ≡ roll F s.current s.history)
  on_tick-Summarises now t ts s other same = rw (on_tick_other now t s other) (
      on_ticks-Summarises (tick_bucket t.timestamp) t.mid_price [] ts
        (record s {
          history = roll F s.current s.history;
          current = start_candle F now t.mid_price;
          current_bucket = tick_bucket t.timestamp;
          elapsed_candles = s.elapsed_candles + 1;
        })
        refl (start_candle-Summarises now t.mid_price) same)
