-- ===== src/Tests/Guarding.antt =====
-- Examples for the servers that refuse what they have served.
use vlite.Base.{ℕ, ◌≡◌, refl, arith, List, [], ◌∷◌, replicate, none, some, false}
use vlite.Tests.Packets.{list_filter, list_filter-Remembers}
use vlite.Replay.{new_window, check}
use vlite.Replay.Guards.{run}
use vlite.Uni.{Call, on_connection}
use vlite.Uni.Refusals.{new_hub, run_calls, on_connection-refuses}
use vlite.Http.Holder.{HttpHeaderHolder}
use vlite.Http.Admission.{
  Request, get, not_found, HttpServer, bearer_of, prepare_for_connection, serve_http, synthid,
}
use vlite.Http.Replays.{step, server_guards}
use vlite.Http.Refusals.{serve_http-refuses}

abbrev call_at : ℕ → ℕ → ℕ → ℕ → Call
call_at carrier now rand iter = record {
  carrier = carrier;
  now = now;
  attrib = record { id = 4 ∷ []; rand = rand ∷ []; iter = iter };
}

-- The first carrier comes again, with a newer iteration, after another one.
on_connection-refuses_example :
    (on_connection list_filter (call_at 3 180 7 9) (
      run_calls list_filter
        (call_at 2 150 8 2 ∷ [])
        (on_connection list_filter
          (call_at 1 100 7 1)
          (run_calls list_filter [] new_hub)).hub)).served
    ≡ false
unfolding on_connection new_window check
on_connection-refuses_example =
    on_connection-refuses list_filter list_filter-Remembers [] (call_at 2 150 8 2 ∷ [])
      (call_at 1 100 7 1) (call_at 3 180 7 9) (omega arith) refl ((omega arith, omega arith), tt)
      refl refl (omega arith) (omega arith)

abbrev bearer_header : HttpHeaderHolder
bearer_header = record {
  masker = 5;
  conn_id = replicate 24 1;
  rand = replicate 24 3;
  time = 1000;
  flags = 0;
  conn_iter = 1;
}

abbrev request_at : ℕ → Request
request_at now = record {
  bearer = replicate 20 9;
  beardata = some bearer_header;
  method = get;
  now = now;
  upgrades = false;
}

abbrev new_server : HttpServer (List (List ℕ))
new_server = record { client_set = λ id. none }

abbrev as_rune : ℕ → List ℕ
as_rune n = n ∷ []

serve_http-refuses_example :
    (serve_http list_filter as_rune (request_at 1050) (
      run list_filter
        (step list_filter as_rune (synthid as_rune bearer_header))
        (server_guards list_filter as_rune (synthid as_rune bearer_header))
        []
        (serve_http list_filter as_rune (request_at 1000) new_server).server)).result
    ≡ not_found
unfolding serve_http prepare_for_connection bearer_of new_window check
serve_http-refuses_example =
    serve_http-refuses list_filter as_rune list_filter-Remembers new_server (request_at 1000)
      (request_at 1050) bearer_header [] (λ id c has. absurd (ground arith)) (omega arith) refl refl
      refl refl refl refl tt (omega arith) (omega arith)
