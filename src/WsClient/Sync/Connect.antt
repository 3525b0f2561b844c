-- ===== src/WsClient/Sync/Connect.antt =====
-- `connect`, and the subscriptions that the server knows behind it.
use libtd.Base.{
  false, ◌||◌, none, List, [], ◌∷◌, ◌++◌, ◌≡◌, refl, sym, ◌∙◌, subst, arith, Result, ok,
}
use libtd.Base.Int.{ℤ, pos}
use libtd.Text.{Bytes}
use libtd.Json.{JsonLib}
use libtd.WsClient.State.{
  Request, Client, Action, Oracle, send, store_connection_id, lift, pure, with_client, ◌>>=◌, ◌>>◌,
}
use libtd.WsClient.State
use libtd.WsClient.Keeps.{
  Keeps, Keeps-pure, Keeps-lift, Leads, Leads-after, Leads-before, bind-returns,
}
use libtd.WsClient.Subscriptions.{contains}
use libtd.WsClient.Messages.{process_authentication_response, resubscribe}
use libtd.WsClient.Connect.{Read, failed, received, read_or_throw, handshake, connect}
use libtd.WsClient.Sync.{serves, serves-append, IsDistinct, IsSynced}
use libtd.WsClient.Sync.Neutral.{
  IsNeutral, process_connect_response-Keeps, before_resubscribe-Keeps,
}

-- The server serves nothing yet; the client notes these quotes.
record IsQuiet {Json : Type 0} (subs : List ℤ) (c : Client Json) : Type 0 where
  silent : (q : ℤ) → serves q false c.sent ≡ false
  same : c.subscribed ≡ subs

module _ {D : Type 0} (J : JsonLib D) (write_fails : Oracle J.Json) (subs : List ℤ) where
  open J use {Json}

  send-IsQuiet : (r : Request Json) → IsNeutral r → Keeps (IsQuiet subs) (send write_fails r)
  unfolding send
  send-IsQuiet r n = record {
    at = λ c s. record {
      silent = λ q.
          ground
            (arith, s.silent q, serves-append q c.sent (r ∷ []) false, n q (serves q false c.sent));
      same = ground (arith, s.same);
    };
  }

  set_id-IsQuiet : (id : Bytes) → Keeps {Json = Json} (IsQuiet subs) (store_connection_id id)
  unfolding store_connection_id
  set_id-IsQuiet id = record { at = λ c s. record { silent = s.silent; same = s.same } }

  -- A write that returns has added its request and left all else.
  send-returns :
      (r : Request Json) (c : Client Json)
      → (send write_fails r c).0 ≡ ok tt
      → (send write_fails r c).1 ≡ record c { sent = c.sent ++ r ∷ [] }
  unfolding send
  send-returns r c e = ground arith

  resubscribe-serves :
      (qs : List ℤ) (c : Client Json) (r : ℤ)
      → (resubscribe J write_fails qs c).0 ≡ ok tt
      → (serves r false (resubscribe J write_fails qs c).1.sent
          ≡ (contains qs r || serves r false c.sent))
        × ((resubscribe J write_fails qs c).1.subscribed ≡ c.subscribed)
  unfolding resubscribe contains pure serves
  resubscribe-serves [] c r e = (refl, refl)
  resubscribe-serves (q ∷ qs) c r e =
      let (u, sent, rest, state) =
        bind-returns (send write_fails (State.subscribe q)) (λ _. resubscribe J write_fails qs) c
          e in
      let c' = (send write_fails (State.subscribe q) c).1 in
      let (ih, kept) = resubscribe-serves qs c' r rest in
      ground (
        arith,
        ih,
        kept,
        state,
        send-returns (State.subscribe q) c sent,
        serves-append r c.sent (State.subscribe q ∷ []) false,
      )

  resubscribe-Leads :
      IsDistinct subs
      → Leads {Json = Json}
          (IsQuiet subs)
          IsSynced
          (with_client (λ c. resubscribe J write_fails c.subscribed))
  unfolding with_client
  resubscribe-Leads d = record {
    to = λ c u p e. record {
      distinct = subst IsDistinct (sym (kept c e ∙ p.same)) d;
      agrees =
          λ q. (resubscribe-serves c.subscribed c q e).0 ∙ ground (arith, p.silent q, kept c e);
    };
  }
    where
      kept :
          (c : Client Json)
          → (resubscribe J write_fails c.subscribed c).0 ≡ ok tt
          → (resubscribe J write_fails c.subscribed c).1.subscribed ≡ c.subscribed
      kept c e = (resubscribe-serves c.subscribed c (pos 0) e).1

  authentication_response-Leads :
      IsDistinct subs
      → (msg : Json)
      → Leads (IsQuiet subs) IsSynced (process_authentication_response J write_fails msg)
  unfolding process_authentication_response
  authentication_response-Leads d msg =
      Leads-after _ _
        (before_resubscribe-Keeps J write_fails (IsQuiet subs) send-IsQuiet set_id-IsQuiet msg)
        λ u. Leads-before _ _ (resubscribe-Leads d) λ v. Keeps-pure none

  read_or_throw-IsQuiet : (r : Read) → Keeps (IsQuiet subs) (read_or_throw J write_fails r)
  unfolding read_or_throw
  read_or_throw-IsQuiet (failed ec) = Keeps-lift _
  read_or_throw-IsQuiet (received buf) = Keeps-lift _

  handshake-Leads :
      IsDistinct subs
      → (login_id token : Bytes) (opened : Result (Unit {0})) (first second : Read)
      → Leads (IsQuiet subs) IsSynced (handshake J write_fails login_id token opened first second)
  unfolding handshake
  handshake-Leads d login_id token opened first second = Leads-after _ _ (Keeps-lift opened) λ u.
      Leads-after _ _ (read_or_throw-IsQuiet first) λ msg.
        Leads-after _ _
          (process_connect_response-Keeps J write_fails (IsQuiet subs) send-IsQuiet set_id-IsQuiet
            msg login_id token)
          λ v.
            Leads-after _ _ (read_or_throw-IsQuiet second)
              λ reply. Leads-before _ _ (authentication_response-Leads d reply) λ w. Keeps-pure tt

module _ {D : Type 0} (J : JsonLib D) (write_fails : Oracle J.Json) where
  open J use {Json}

  -- A connect that returns leaves the server serving exactly the quotes that the client noted
  -- before, whatever was sent on the former socket, if no quote was noted twice.
  pub connect-IsSynced :
      (url login_id token : Bytes) (opened : Result (Unit {0})) (first second : Read)
      (c : Client Json)
      → IsDistinct c.subscribed
      → (connect J write_fails url login_id token opened first second c).0 ≡ ok tt
      → IsSynced (connect J write_fails url login_id token opened first second c).1
  unfolding connect serves
  connect-IsSynced url login_id token opened first second c d e =
      (handshake-Leads J write_fails c.subscribed d login_id token opened first second).to _ tt
        (record { silent = λ q. refl; same = refl }) e
