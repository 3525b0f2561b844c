-- ===== src/WsClient/Sync/Replies.antt =====
-- `subscribe` and `unsubscribe`, and the subscriptions that the server knows.
use libtd.Base.{false, [], ◌∷◌, ◌≡◌, arith, Bool-cases, inl, inr, ok}
use libtd.Base.Int.{ℤ}
use libtd.WsClient.State.{Request, Client, Action, Oracle, send, lift, pure}
use libtd.WsClient.State
use libtd.WsClient.Subscriptions.{contains, subscribe, unsubscribe}
use libtd.WsClient.Sync.{
  serves, serves-append, IsSynced, contains-append, IsDistinct-append, contains-erase,
  erase-IsDistinct,
}

module _ {Json : Type 0} (write_fails : Oracle Json) where
  -- A subscribe that returns keeps the server serving exactly the quotes that the client notes,
  -- each noted once.
  pub subscribe-IsSynced :
      (q : ℤ) (c : Client Json)
      → IsSynced c
      → (subscribe write_fails q c).0 ≡ ok tt
      → IsSynced (subscribe write_fails q c).1
  unfolding subscribe serves
  subscribe-IsSynced q c s e = elim (Bool-cases (contains c.subscribed q)) [
    | inl old ↦ rw (old, subscribe) s
    | inr new ↦ record {
      distinct = ground (arith, IsDistinct-append c.subscribed q s.distinct new);
      agrees = λ r. ground (
        arith,
        s.agrees r,
        serves-append r c.sent (State.subscribe q ∷ []) false,
        contains-append c.subscribed q r,
      );
    }
  ]

  -- An unsubscribe that returns keeps the server serving exactly the quotes that the client
  -- notes, each noted once.
  pub unsubscribe-IsSynced :
      (q : ℤ) (c : Client Json)
      → IsSynced c
      → (unsubscribe write_fails q c).0 ≡ ok tt
      → IsSynced (unsubscribe write_fails q c).1
  unfolding unsubscribe serves
  unsubscribe-IsSynced q c s e = elim (Bool-cases (contains c.subscribed q)) [
    | inl old ↦ record {
      distinct = ground (arith, erase-IsDistinct c.subscribed q s.distinct);
      agrees = λ r. ground (
        arith,
        s.agrees r,
        serves-append r c.sent (State.unsubscribe q ∷ []) false,
        contains-erase c.subscribed q r s.distinct,
      );
    }
    | inr new ↦ rw (new, unsubscribe) s
  ]
