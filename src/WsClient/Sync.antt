-- ===== src/WsClient/Sync.antt =====
-- The subscriptions that the server has taken in, against those that the client notes.
pub mod Replies
pub mod Neutral
pub mod Loop
pub mod Handle
pub mod Connect
pub mod Notes
pub mod Session
use libtd.Base.{
  Bool, true, false, not, ◌&&◌, ◌||◌, List, [], ◌∷◌, ◌++◌, All, ◌≡◌, refl, arith, if◌then◌else◌,
}
use libtd.Base.Int.{ℤ, eqb_ℤ, eqb_ℤ_iff}
use libtd.WsClient.State.{Request, Client}
use libtd.WsClient.State
use libtd.WsClient.Subscriptions.{contains, erase}

-- Whether the server sends prices of `q`, if it did so at first, after these requests: what the
-- requests written to the current socket come to. A server that refuses one is not modelled.
unfoldable pub serves : {Json : Type 0} → ℤ → Bool → List (Request Json) → Bool
serves q b [] = b
serves q b (State.subscribe r ∷ rs) = serves q (eqb_ℤ r q || b) rs
serves q b (State.unsubscribe r ∷ rs) = serves q (not (eqb_ℤ r q) && b) rs
serves q b (State.authentication l t ∷ rs) = serves q b rs
serves q b (State.reconnect i ∷ rs) = serves q b rs
serves q b (State.options ∷ rs) = serves q b rs
serves q b (State.heartbeat a b' c d e ∷ rs) = serves q b rs

pub serves-append :
    {Json : Type 0} (q : ℤ) (rs ss : List (Request Json)) (b : Bool)
    → serves q b (rs ++ ss) ≡ serves q (serves q b rs) ss
unfolding serves
serves-append q [] ss b = refl
serves-append q (State.subscribe r ∷ rs) ss b = serves-append q rs ss (eqb_ℤ r q || b)
serves-append q (State.unsubscribe r ∷ rs) ss b = serves-append q rs ss (not (eqb_ℤ r q) && b)
serves-append q (State.authentication l t ∷ rs) ss b = serves-append q rs ss b
serves-append q (State.reconnect i ∷ rs) ss b = serves-append q rs ss b
serves-append q (State.options ∷ rs) ss b = serves-append q rs ss b
serves-append q (State.heartbeat _ _ _ _ _ ∷ rs) ss b = serves-append q rs ss b

-- No quote stands twice.
abbrev pub IsDistinct : List ℤ → Type 0
IsDistinct [] = Unit
IsDistinct (x ∷ xs) = (contains xs x ≡ false) × IsDistinct xs

-- The server serves exactly the quotes that the client notes, each of them noted once.
pub record IsSynced {Json : Type 0} (c : Client Json) : Type 0 where
  pub distinct : IsDistinct c.subscribed
  pub agrees : (q : ℤ) → serves q false c.sent ≡ contains c.subscribed q

pub contains-append :
    (xs : List ℤ) (q r : ℤ) → contains (xs ++ q ∷ []) r ≡ (eqb_ℤ q r || contains xs r)
unfolding contains
contains-append [] q r = refl
contains-append (x ∷ xs) q r = ground (arith, contains-append xs q r)

pub IsDistinct-append :
    (xs : List ℤ) (q : ℤ) → IsDistinct xs → contains xs q ≡ false → IsDistinct (xs ++ q ∷ [])
unfolding contains
IsDistinct-append [] q d h = (refl, tt)
IsDistinct-append (x ∷ xs) q d h = (
  ground (arith, contains-append xs q x, eqb_ℤ_iff q x, eqb_ℤ_iff x q),
  IsDistinct-append xs q d.1 (ground arith),
)

pub contains-erase :
    (xs : List ℤ) (q r : ℤ)
    → IsDistinct xs
    → contains (erase xs q) r ≡ (not (eqb_ℤ q r) && contains xs r)
unfolding contains erase
contains-erase [] q r d = ground arith
contains-erase (x ∷ xs) q r d =
    ground (arith, contains-erase xs q r d.1, eqb_ℤ_iff x q, eqb_ℤ_iff q r, eqb_ℤ_iff x r)

pub erase-IsDistinct : (xs : List ℤ) (q : ℤ) → IsDistinct xs → IsDistinct (erase xs q)
unfolding erase contains
erase-IsDistinct [] q d = tt
erase-IsDistinct (x ∷ xs) q d = ground (arith, erase-IsDistinct xs q d.1, contains-erase xs q x d.1)
