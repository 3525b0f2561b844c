-- ===== src/Strategy/Alerts.antt =====
-- No signal is given twice in a row.
use libtd.Base.{◌⊎◌, true, false, Bool-cases, inl, inr, List, [], ◌∷◌, ◌≡◌, ◌≢◌, refl}
use libtd.Base.Int.{ℤ}
use libtd.Types.Tick.{Tick}
use libtd.Strategy.Candles.{Doubles, trending_up, trending_down}
use libtd.Strategy.Candles as Candles
use libtd.Strategy.Signals.{Signal, buy, sell, Signals, same_signal, alert, judge, on_tick}

-- Each signal is another than the one before, which is `last` at first; ticks without a signal do not
-- count.
pub data Alternates : Signal → List Signal → Type 0 where
  over : {last : Signal} → Alternates last []
  quiet :
      {last : Signal} {vs : List Signal} → Alternates last vs → Alternates last (Signal.none ∷ vs)
  changed :
      {last v : Signal} {vs : List Signal}
      → v ≢ Signal.none
      → v ≢ last
      → Alternates v vs
      → Alternates last (v ∷ vs)

same_signal_refl : (v : Signal) → same_signal v v ≡ true
unfolding same_signal
same_signal_refl Signal.none = refl
same_signal_refl buy = refl
same_signal_refl sell = refl

differs : (v w : Signal) → same_signal v w ≡ false → v ≢ w
differs v w h e = cc (h, e, same_signal_refl v)

module _ {D : Type 0} (F : Doubles D) where
  -- The signals of ticks one after the other, each with the time of the system clock.
  unfoldable pub alerts : List (ℤ × Tick D) → Signals D → List Signal
  alerts [] s = []
  alerts ((now, t) ∷ ts) s = (on_tick F now t s).0 ∷ alerts ts ((on_tick F now t s).1)

  -- What a signal and the state behind it have to be, for the last signal before.
  abbrev Follows : Signal → Signal × Signals D → Type 0
  Follows last o =
      ((o.0 ≡ Signal.none) × (o.1.last_signal ≡ last))
      ⊎ ((o.0 ≢ Signal.none) × (o.0 ≢ last) × (o.1.last_signal ≡ o.0))

  alert-Follows : (v : Signal) (s : Signals D) → v ≢ Signal.none → Follows s.last_signal (alert v s)
  unfolding alert
  alert-Follows v s some_signal = elim (Bool-cases (same_signal v s.last_signal)) [
    | inl same ↦ rw same (inl (refl, refl))
    | inr new ↦ rw new (inr (some_signal, differs v s.last_signal new, refl))
  ]

  judge-Follows : (s : Signals D) → Follows s.last_signal (judge F s)
  unfolding judge
  judge-Follows s = elim (Bool-cases (trending_up F s.agg)) [
    | inl up ↦ rw up (alert-Follows buy s (λ e. cc))
    | inr flat ↦ rw flat (elim (Bool-cases (trending_down F s.agg)) [
      | inl down ↦ rw down (alert-Follows sell s (λ e. cc))
      | inr still ↦ rw still (inl (refl, refl))
    ])
  ]

  follow :
      (last : Signal) (o : Signal × Signals D) (vs : List Signal)
      → Follows last o
      → Alternates (o.1.last_signal) vs
      → Alternates last (o.0 ∷ vs)
  follow last o vs (inl (e, k)) h = rw e (quiet (rw (← k) h))
  follow last o vs (inr (d, n, k)) h = changed d n (rw (← k) h)

  -- Over any ticks, each signal but none that the demonstration program gives is another than the
  -- one before it, the last signal of the start included.
  pub alerts-Alternates :
      (ts : List (ℤ × Tick D)) (s : Signals D) → Alternates s.last_signal (alerts ts s)
  unfolding alerts on_tick
  alerts-Alternates [] s = over
  alerts-Alternates ((now, t) ∷ ts) s =
      follow s.last_signal (on_tick F now t s) _
        (judge-Follows (record s { agg = Candles.on_tick F now t s.agg }))
        (alerts-Alternates ts ((on_tick F now t s).1))
