-- ===== src/Middleware/Tests.antt =====
-- MiddleWare/Interface.cpp: tests of the middleware's handlers, and their theorems at concrete inputs.
use multi_market_prices.Prelude.{
  not, ◌&&◌, ◌≤◌, ◌≡◌, refl, true, false, none, List, [], ◌∷◌, ◌++◌, String, string_dec, nat_dec,
  lookup, assign, remove, contains, stoull, string_eq, nat_eq, arith, if◌then◌else◌, is_some,
}
use multi_market_prices.Middleware.{Record, Message, ok, non_existent_req_id, handle, respond_to}
use multi_market_prices.Middleware.Requests.{Application, on_message, request, respond}
use multi_market_prices.Middleware.RoundTrip.{receive_all, request_round_trip}
use multi_market_prices.Middleware.Book.{Turn, arrives, responds, run, pending_after, run-lem}
use multi_market_prices.Middleware.Dispatch.{delivered, handled, on_message_lem}
use multi_market_prices.Middleware.Loop.{
  failed, fetched, Pass, LoopEffect, close, release, start, start-Consumes, Consumes,
}
use multi_market_prices.Middleware.Starting.{
  InitParams, start_group_loop, kill_group_loop, Outcomes, initialize_middleware,
}
use multi_market_prices.Middleware.Starting.Milestones.{
  milestones, complains, group_loop, expected_milestones, initialize_middleware_lem,
}
use multi_market_prices.Middleware.Killing
use multi_market_prices.Middleware.Killing.Ending.{
  has_returned, is_over, CanEnd, kill-IsOver, m_killed_le,
}

abbrev application : String → Application
application name = record {
  app_id = name;
  description = "a component";
  has_pong_callback = true;
  response_throws = λ n s b. false;
  pong_throws = λ n. false;
}

request_round_trip_example :
    let asked =
      receive_all none (application "sdp") (request (application "gui") 7 none "all" "sdp").1 [] in
    let answered = respond 7 "none" true asked.0 in
    (asked.1 ≡ handle 7 "all" ∷ [])
    × (answered.0 ≡ ok)
    × (lookup 7 answered.1 ≡ none)
    × (receive_all none (application "gui") answered.2 [] ≡ ([], respond_to 7 "none" true ∷ []))
unfolding string_dec lookup contains
request_round_trip_example =
    request_round_trip (application "gui") (application "sdp") 7 "all" "sdp" [] none "none" true []
      (ground arith) refl refl refl refl refl

abbrev asking : String → String → Message
asking number dest = record {
  topic = "sdp";
  partition = 0;
  offset = 4;
  msg_type = "request";
  key = dest;
  headers = ("reqId", number) ∷ ("destTopic", dest) ∷ [];
  payload = "all";
}

abbrev told : Message
told = record {
  topic = "sdp";
  partition = 0;
  offset = 5;
  msg_type = "status_update";
  key = "gw";
  headers = [];
  payload = "";
}

-- The last turn stands first: two requests with the number 7, and a last response.
abbrev turns : List Turn
turns = responds 7 "none" true ∷ arrives (asking "7" "sim") ∷ arrives (asking "7" "gui") ∷ []

ended : run (application "sdp") turns ≡ []
unfolding run lookup assign remove stoull string_dec nat_dec on_message respond
ended = refl

run-lem_example :
    (lookup 7 (run (application "sdp") turns) ≡ pending_after turns 7)
    × ((respond 7 "late" true (run (application "sdp") turns)).0
        ≡ (if is_some (pending_after turns 7) then ok else non_existent_req_id))
run-lem_example = run-lem (application "sdp") turns 7 "late" true

on_message_lem_example :
    (delivered (on_message (application "sdp") told []).1 ≡ told ∷ [])
    × (handled (on_message (application "sdp") told []).1 ≡ [])
unfolding string_dec
on_message_lem_example = on_message_lem (application "sdp") told []

abbrev record_at : String → Record
record_at payload = record {
  topic = "sdp";
  key = "gw";
  payload = payload;
  headers = ("message_type", "status_update") ∷ [];
}

abbrev passes : List Pass
passes =
    record {
      running = true;
      shutdown_requested = false;
      records = fetched 0 4 (record_at "a") ∷ failed 3 ∷ [];
    }
    ∷ record {
      running = true;
      shutdown_requested = false;
      records = fetched 0 5 (record_at "b") ∷ [];
    }
    ∷ []

abbrev last_pass : Pass
last_pass = record {
  running = true;
  shutdown_requested = true;
  records = fetched 0 6 (record_at "c") ∷ [];
}

start-Consumes_example :
    (es : List LoopEffect) × (start (passes ++ last_pass ∷ []) ≡ es ++ close ∷ release ∷ [])
    × Consumes es (fetched 0 4 (record_at "a") ∷ failed 3 ∷ fetched 0 5 (record_at "b") ∷ []) 2
start-Consumes_example = start-Consumes passes [] last_pass (refl, (refl, tt)) refl

abbrev params : InitParams
params = record {
  app_id = "sdp";
  app_group = "sdps";
  has_description_func = true;
  has_heart_beat_gen_func = true;
  heartbeat_interval_sec = 5;
  has_timer = true;
  has_kafka_worker = true;
  has_msg_callback = true;
  has_init_callback = true;
  has_response_callback = true;
  has_request_handler_func = true;
  min_available_brokers = 1;
  registrations_topic = "registrations";
  description = "mock";
  has_exit_cb = true;
}

abbrev in_order : Outcomes
in_order = record { clients = none; subscribing = none }

initialize_middleware_lem_example :
    (milestones (initialize_middleware params in_order) ≡ expected_milestones params)
    × (complains (initialize_middleware params in_order) ≡ false)
    × (group_loop (initialize_middleware params in_order) ≡ start_group_loop ∷ kill_group_loop ∷ [])
unfolding string_dec nat_dec
initialize_middleware_lem_example = initialize_middleware_lem params in_order refl

-- A call of `kill` before the loop begins returns at once, and the loop then runs on.
lost_kill :
    Killing.Steps Killing.constructed
      (Killing.threads true 0 false Killing.testing Killing.returned)
lost_kill =
    Killing.and_then _ _ _ (Killing.ask_idle false 0 Killing.unstarted)
      (Killing.and_then _ _ _ (Killing.begin false false 0 Killing.returned) (Killing.done _))

m_killed_le_example : (Killing.threads true 0 false Killing.testing Killing.returned).m_killed ≤ 1
m_killed_le_example =
    m_killed_le (Killing.threads true 0 false Killing.testing Killing.returned) lost_kill

abbrev cleared : Killing.Threads
cleared = Killing.threads false 0 false Killing.testing Killing.waiting

kill-IsOver_example :
    (has_returned cleared.killer && not (is_over cleared.looping) ≡ false) × CanEnd cleared
kill-IsOver_example = kill-IsOver cleared (
    Killing.and_then _ _ _ (Killing.pass 0 Killing.asking) (
      Killing.and_then _ _ _ (Killing.ask_running false 0 Killing.testing) (
        Killing.and_then _ _ _ (Killing.clear true false 0 Killing.testing)
          (Killing.done cleared))))
