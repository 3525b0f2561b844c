-- ===== src/Tests/Waits.antt =====
-- Calls of `wait` on concrete rounds.
use libtd.Base.{◌+◌, Result, ℕ, [], ◌∷◌, ◌++◌, some, none, ok, refl, arith}
use libtd.Parsing.GroupingNames.{grouping_map}
use libtd.WsClient.Deadline.{HasEnded}
use libtd.WsClient.Loop.{Turn}
use libtd.WsClient.Connect.{failed, timed_out}
use libtd.Base.Int.{pos}
use libtd.Td365.State.{Td365}
use libtd.Td365.Wait.{Round, wait}
use libtd.Td365.Timeouts.{IsNoTimeout, wait-IsNoTimeout}
use libtd.Td365.Ending.{IsTimely, wait-HasEnded}
use libtd.Tests.Library.{Value, json, float}
use libtd.Tests.Sessions.{never, online, beating}

abbrev past_limit : Turn
past_limit = record { now = 100000020; wall = pos 0; read = failed timed_out }

-- A round that answers a heartbeat and then runs into the limit of the read.
abbrev pub a_round : Round
a_round = record {
  now = 70000000000;
  start = 0;
  script = beating ∷ past_limit ∷ [];
  after = 70100000020;
}

-- A refresh that counts itself.
abbrev counted : ℕ → Result (Unit {0}) × ℕ
counted n = (ok tt, n + 1)

abbrev a_session : Td365 ℕ Value
a_session = record { rest_client = 0; ws_client = online; last_session_update = 0 }

a_round-IsTimely : IsTimely a_round
a_round-IsTimely = record {
  earlier = beating ∷ [];
  late = past_limit;
  later = [];
  script = refl;
  time = omega arith;
}

wait-IsNoTimeout_example :
    IsNoTimeout (wait counted json float never grouping_map none 0 (a_round ∷ []) a_session).0
wait-IsNoTimeout_example =
    wait-IsNoTimeout counted json float never grouping_map 0 (a_round ∷ []) a_session

wait-HasEnded_example :
    HasEnded
      (wait counted json float never grouping_map
        (some 5)
        0
        ((a_round ∷ []) ++ a_round ∷ [])
        a_session).0
wait-HasEnded_example =
    wait-HasEnded counted json float never grouping_map 5 0 (a_round ∷ []) [] a_round a_session
      (a_round-IsTimely, tt) a_round-IsTimely (omega arith)
