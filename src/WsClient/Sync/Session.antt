-- ===== src/WsClient/Sync/Session.antt =====
-- Whole sessions: any calls in any order, those that throw included.
use libtd.Base.{ℕ, Option, List, ◌≡◌, arith, ok, Result, Bool-cases, inl, inr, String}
use libtd.Base.Int.{ℤ}
use libtd.Text.{Bytes}
use libtd.Json.{JsonLib}
use libtd.Types.Tick.{Grouping}
use libtd.Parsing.Numbers.{FloatLib}
use libtd.WsClient.State.{Client, initial, Oracle}
use libtd.WsClient.Subscriptions.{contains, subscribe, unsubscribe}
use libtd.WsClient.Connect.{Read, connect}
use libtd.WsClient.Loop.{Turn, read_and_process_message}
use libtd.WsClient.Sync.{IsDistinct, IsSynced, IsDistinct-append, erase-IsDistinct}
use libtd.WsClient.Sync.Notes.{connect-Notes, read_and_process_message-Notes}
use libtd.WsClient.Sync.Connect.{connect-IsSynced}

abbrev IsTidy : {Json : Type 0} → Client Json → Type 0
IsTidy c = IsDistinct c.subscribed

module _ {D : Type 0} (J : JsonLib D) (F : FloatLib D) (write_fails : Oracle J.Json)
    (order : List (String × Grouping)) where
  open J use {Json}

  -- One call of a public method, however it ends.
  pub data Step (c : Client Json) : Client Json → Type 0 where
    subscribes : (q : ℤ) → Step c (subscribe write_fails q c).1
    unsubscribes : (q : ℤ) → Step c (unsubscribe write_fails q c).1
    reads :
        (limit : Option ℕ) (start : ℕ) (script : List Turn)
        → Step c (read_and_process_message J F write_fails order limit start script c).1
    connects :
        (url login_id token : Bytes) (opened : Result (Unit {0})) (first second : Read)
        → Step c (connect J write_fails url login_id token opened first second c).1

  pub data Reach (c : Client Json) : Client Json → Type 0 where
    here : Reach c c
    next : {d e : Client Json} → Reach c d → Step d e → Reach c e

  subscribe-IsTidy : (q : ℤ) (c : Client Json) → IsTidy c → IsTidy (subscribe write_fails q c).1
  unfolding subscribe
  subscribe-IsTidy q c d = elim (Bool-cases (contains c.subscribed q)) [
    | inl old ↦ rw (old, subscribe) d
    | inr new ↦ ground (arith, IsDistinct-append c.subscribed q d new)
  ]

  unsubscribe-IsTidy : (q : ℤ) (c : Client Json) → IsTidy c → IsTidy (unsubscribe write_fails q c).1
  unfolding unsubscribe
  unsubscribe-IsTidy q c d = ground (arith, erase-IsDistinct c.subscribed q d)

  Step-IsTidy : {c d : Client Json} → Step c d → IsTidy c → IsTidy d
  Step-IsTidy {c} (subscribes q) t = subscribe-IsTidy q c t
  Step-IsTidy {c} (unsubscribes q) t = unsubscribe-IsTidy q c t
  Step-IsTidy {c} (reads limit start script) t =
      read_and_process_message-Notes J F write_fails order IsDistinct limit start script c t
  Step-IsTidy {c} (connects url login_id token opened first second) t =
      connect-Notes J F write_fails order IsDistinct url login_id token opened first second c t

  -- No calls of the client, those that throw included, make it note a quote twice.
  pub Reach-IsDistinct :
      {c d : Client Json} → Reach c d → IsDistinct c.subscribed → IsDistinct d.subscribed
  Reach-IsDistinct here t = t
  Reach-IsDistinct (next r s) t = Step-IsTidy s (Reach-IsDistinct r t)

  -- After any calls of subscribe, unsubscribe, connect and read_and_process_message of a new
  -- client, those that throw included, a connect that returns leaves the server serving exactly
  -- the quotes that the client notes, each noted once.
  pub Reach-connect-IsSynced :
      (c : Client Json) (url login_id token : Bytes) (opened : Result (Unit {0}))
      (first second : Read)
      → Reach (initial Json) c
      → (connect J write_fails url login_id token opened first second c).0 ≡ ok tt
      → IsSynced (connect J write_fails url login_id token opened first second c).1
  Reach-connect-IsSynced c url login_id token opened first second r e =
      connect-IsSynced J write_fails url login_id token opened first second c
        (Reach-IsDistinct r tt) e
