-- ===== src/WsClient/Keeps.antt =====
-- Actions that keep a property of the client, whether they return or throw.
use libtd.Base.{sym, subst, ◌≡◌, refl, Result, ok, err}
use libtd.WsClient.State.{Client, Action, continue, ◌>>=◌, pure, lift, with_client}

pub record Keeps {Json A : Type 0} (P : Client Json → Type 0) (action : Action Json A)
    : Type 0 where
  pub at : (before : Client Json) → P before → P (action before).1

module _ {Json A : Type 0} {P : Client Json → Type 0} where
  pub Keeps-lift : (outcome : Result A) → Keeps P (lift outcome)
  unfolding lift
  Keeps-lift outcome = record { at = λ _ kept. kept }

  pub Keeps-pure : (value : A) → Keeps P (pure value)
  unfolding pure
  Keeps-pure value = record { at = λ _ kept. kept }

  pub Keeps-with_client :
      (f : Client Json → Action Json A)
      → ((c : Client Json) → Keeps P (f c))
      → Keeps P (with_client f)
  unfolding with_client
  Keeps-with_client f k = record { at = λ c p. (k c).at c p }

module _ {Json A B : Type 0} {P : Client Json → Type 0} where
  continue-Keeps :
      (r : Result A × Client Json) (f : A → Action Json B)
      → P r.1
      → ((a : A) → Keeps P (f a))
      → P (continue r f).1
  unfolding continue
  continue-Keeps (ok a, c) f p k = (k a).at c p
  continue-Keeps (err e, c) f p k = p

  pub Keeps-bind :
      (m : Action Json A) (f : A → Action Json B)
      → Keeps P m
      → ((a : A) → Keeps P (f a))
      → Keeps P (m >>= f)
  unfolding ◌>>=◌
  Keeps-bind m f k l = record { at = λ c p. continue-Keeps (m c) f (k.at c p) l }

pub ruleset keeps_rules = (Keeps-pure, Keeps-lift, Keeps-with_client, Keeps-bind)

module _ {Json A B : Type 0} where
  continue-returns :
      (r : Result A × Client Json) (f : A → Action Json B) {b : B}
      → (continue r f).0 ≡ ok b
      → (a : A) × (r.0 ≡ ok a) × ((f a r.1).0 ≡ ok b) × ((continue r f).1 ≡ (f a r.1).1)
  unfolding continue
  continue-returns (ok a, c) f e = (a, refl, e, refl)
  continue-returns (err x, c) f e = cc

  -- A bind that returns: its parts returned, and its state is that of the second.
  pub bind-returns :
      (m : Action Json A) (f : A → Action Json B) (c : Client Json) {b : B}
      → ((m >>= f) c).0 ≡ ok b
      → (a : A) × ((m c).0 ≡ ok a) × ((f a (m c).1).0 ≡ ok b) × (((m >>= f) c).1 ≡ (f a (m c).1).1)
  unfolding ◌>>=◌
  bind-returns m f c e = continue-returns (m c) f e

-- Actions that lead from one property to another, if they return.
pub record Leads {Json A : Type 0} (P Q : Client Json → Type 0) (m : Action Json A) : Type 0 where
  pub to : (c : Client Json) (a : A) → P c → (m c).0 ≡ ok a → Q (m c).1

module _ {Json A B : Type 0} {P Q : Client Json → Type 0} where
  pub Leads-after :
      (m : Action Json A) (f : A → Action Json B)
      → Keeps P m
      → ((a : A) → Leads P Q (f a))
      → Leads P Q (m >>= f)
  Leads-after m f k l = record {
    to = λ c b p e.
        let (a, returned, rest, state) = bind-returns m f c e in
        subst Q (sym state) ((l a).to (m c).1 b (k.at c p) rest);
  }

  pub Leads-before :
      (m : Action Json A) (f : A → Action Json B)
      → Leads P Q m
      → ((a : A) → Keeps Q (f a))
      → Leads P Q (m >>= f)
  Leads-before m f l k = record {
    to = λ c b p e.
        let (a, returned, rest, state) = bind-returns m f c e in
        subst Q (sym state) ((k a).at (m c).1 (l.to c a p returned));
  }
