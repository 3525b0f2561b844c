-- ===== src/WsClient/Sync/Handle.antt =====
-- The messages of the server, and the subscriptions that it knows.
use libtd.Base.{ℕ, true, false, Option, String, List, [], ◌∷◌, All, All-weaken, ◌≡◌, refl, arith}
use libtd.Base.Int.{ℤ, eqb_ℤ_iff}
use libtd.Text.{Bytes}
use libtd.Json.{JsonLib}
use libtd.Types.Tick.{Grouping}
use libtd.Parsing.Numbers.{FloatLib}
use libtd.WsClient.State.{
  Request, authentication, reconnect, options, heartbeat, Client, Action, Oracle, send,
  store_connection_id, with_client, lift, pure, continue, ◌>>=◌, ◌>>◌,
}
use libtd.WsClient.State
use libtd.WsClient.Keeps.{Keeps, Keeps-pure, Keeps-bind}
use libtd.WsClient.Subscriptions.{contains}
use libtd.WsClient.Messages.{resubscribe}
use libtd.WsClient.Loop.{Turn, read_and_process_message}
use libtd.WsClient.Sync.{serves, serves-append, IsSynced}
use libtd.WsClient.Sync.Neutral.{IsNeutral}
use libtd.WsClient.Sync.Loop.{read_and_process_message-Keeps}

-- In step, with these quotes noted.
record IsSyncedAt {Json : Type 0} (subs : List ℤ) (c : Client Json) : Type 0 where
  synced : IsSynced c
  same : c.subscribed ≡ subs

-- Each quote of a list is in it.
contains_self : (xs : List ℤ) → All (λ q. contains xs q ≡ true) xs
unfolding contains
contains_self [] = tt
contains_self (x ∷ xs) = (
  ground (arith, eqb_ℤ_iff x x),
  All-weaken (λ q. contains xs q ≡ true) (λ q. contains (x ∷ xs) q ≡ true) xs (λ q h. ground arith)
      (contains_self xs),
)

module _ {D : Type 0} (J : JsonLib D) (F : FloatLib D) (write_fails : Oracle J.Json)
    (order : List (String × Grouping)) where
  open J use {Json}

  send-IsSynced : (r : Request Json) → IsNeutral r → Keeps IsSynced (send write_fails r)
  unfolding send
  send-IsSynced r n = record {
    at = λ c s. record {
      distinct = ground (arith, s.distinct);
      agrees = λ q.
          ground
            (arith, s.agrees q, serves-append q c.sent (r ∷ []) false, n q (serves q false c.sent));
    };
  }

  set_id-IsSynced : (id : Bytes) → Keeps {Json = Json} IsSynced (store_connection_id id)
  unfolding store_connection_id
  set_id-IsSynced id = record { at = λ c s. record { distinct = s.distinct; agrees = s.agrees } }

  -- A quote that is noted may be subscribed again.
  resend-IsSyncedAt :
      (subs : List ℤ) (q : ℤ)
      → contains subs q ≡ true
      → Keeps (IsSyncedAt subs) (send write_fails (State.subscribe q))
  unfolding send serves
  resend-IsSyncedAt subs q h = record {
    at = λ c s. record {
      synced = record {
        distinct = ground (arith, s.synced.distinct);
        agrees = λ r. ground (
          arith,
          s.synced.agrees r,
          s.same,
          serves-append r c.sent (State.subscribe q ∷ []) false,
          eqb_ℤ_iff q r,
        );
      };
      same = ground (arith, s.same);
    };
  }

  resubscribe-IsSyncedAt :
      (subs qs : List ℤ)
      → All (λ q. contains subs q ≡ true) qs
      → Keeps (IsSyncedAt subs) (resubscribe J write_fails qs)
  unfolding resubscribe
  resubscribe-IsSyncedAt subs [] h = Keeps-pure tt
  resubscribe-IsSyncedAt subs (q ∷ qs) h =
      Keeps-bind _ _ (resend-IsSyncedAt subs q h.0) λ u. resubscribe-IsSyncedAt subs qs h.1

  resubscribe-IsSynced :
      Keeps {Json = Json} IsSynced (with_client (λ c. resubscribe J write_fails c.subscribed))
  unfolding with_client
  resubscribe-IsSynced = record {
    at = λ c s.
        ((resubscribe-IsSyncedAt c.subscribed c.subscribed (contains_self c.subscribed)).at c
          (record { synced = s; same = refl })).synced;
  }

  -- If the server serves exactly the quotes that the client notes, it still does after
  -- read_and_process_message, whatever messages come, whichever writes fail and however the call
  -- ends.
  pub read_and_process_message-IsSynced :
      (limit : Option ℕ) (start : ℕ) (script : List Turn) (c : Client Json)
      → IsSynced c
      → IsSynced (read_and_process_message J F write_fails order limit start script c).1
  read_and_process_message-IsSynced =
      read_and_process_message-Keeps J F write_fails order IsSynced send-IsSynced set_id-IsSynced
        resubscribe-IsSynced
