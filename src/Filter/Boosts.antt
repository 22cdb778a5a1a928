-- ===== src/Filter/Boosts.antt =====
-- When the filtered connection asks for more connections.
use vlite.Base.{ℕ, ◌≤◌, ◌<◌, ◌≡◌, arith, true}
use vlite.Filter.{Requester, traffic_flow, tick}

-- A second with more than 16 packets, from any counter of at least 1, asks for boosting.
tick-busy :
    (sent recv : ℕ) (r : Requester)
    → 16 < traffic_flow sent recv r
    → 1 ≤ r.hi_traffic_counter
    → (tick sent recv r).emits ≡ true
unfolding tick
tick-busy sent recv r busy some = ground arith

tick-raises :
    (sent recv : ℕ) (r : Requester)
    → 16 < traffic_flow sent recv r
    → 1 ≤ (tick sent recv r).requester.hi_traffic_counter
unfolding tick
tick-raises sent recv r busy = ground arith

-- Any two seconds one after the other with more than 16 packets each make the connection ask for
-- boosting at the end of the second.
pub tick-tick_busy :
    (sent1 recv1 sent2 recv2 : ℕ) (r : Requester)
    → 16 < traffic_flow sent1 recv1 r
    → 16 < traffic_flow sent2 recv2 (tick sent1 recv1 r).requester
    → (tick sent2 recv2 (tick sent1 recv1 r).requester).emits ≡ true
tick-tick_busy sent1 recv1 sent2 recv2 r first second =
    tick-busy sent2 recv2 (tick sent1 recv1 r).requester second (tick-raises sent1 recv1 r first)
