-- ===== src/Rest/Tests.antt =====
-- MDGateways/Binance/RestApi.cpp: tests of the REST client, and its theorems at concrete inputs.
use multi_market_prices.Prelude.{
  ℕ, ◌≡◌, refl, true, none, some, List, [], ◌∷◌, ◌++◌, String, string_dec,
}
use multi_market_prices.Rest.{
  JsonLib, PendingRequest, RestClient, RestError.other, launch, new_client, target,
}
use multi_market_prices.Rest.Calls.{get_depth, when_connected, launch_request}
use multi_market_prices.Rest.Exchange.{
  RestEvent, launched, timed, resolved, joined, shaken, written, received, step, run,
}
use multi_market_prices.Rest.Order.{answered, callbacks, launches, answered-run}
use multi_market_prices.Rest.Phase.{
  IsInPhase, AreEnabled, AreSerial, run-IsInPhase, started, started-IsInPhase,
}
use multi_market_prices.Rest.Draining.{
  replies, writes, targets_after, serve, pair_up, up, remade, serve-drains, lost-recovers,
}

-- Texts in place of JSON objects and values.
abbrev texts : JsonLib String String
texts = record {
  empty = "{}";
  parse_object = λ s. some s;
  find = λ k s. none;
  of_object = λ s. s;
  single = λ k s. s;
}

abbrev client : RestClient ℕ
client = record (new_client "/api/v3" 10) { connected = true; connected_once = true }

depth_call :
    get_depth texts "BTCUSDT" "5" (some 1) client
    ≡ launch (record { target = "/api/v3/depth?symbol=BTCUSDT&limit=5"; callback = some 1 }) ∷ []
unfolding get_depth when_connected launch_request target string_dec new_client
depth_call = refl

abbrev first : PendingRequest ℕ
first = record { target = "/api/v3/ping"; callback = some 1 }

abbrev second : PendingRequest ℕ
second = record { target = "/api/v3/time"; callback = some 2 }

abbrev events : List (RestEvent ℕ)
events =
    launched first
    ∷ resolved none
    ∷ joined none none
    ∷ shaken none
    ∷ launched second
    ∷ written none
    ∷ received (some (other 1)) ""
    ∷ timed
    ∷ resolved none
    ∷ []

answered-run_example :
    answered (run texts events (started "/api/v3" 10)).1
      ++ callbacks (run texts events (started "/api/v3" 10)).0.client.queue
    ≡ callbacks {C = ℕ} (started "/api/v3" 10).client.queue ++ launches events
answered-run_example = answered-run texts events (started "/api/v3" 10)

program : Unit {0}
unfolding run step new_client
program = tt

enabled : AreEnabled texts (started "/api/v3" 10) events
unfolding program
enabled = (
  tt,
  (
    (refl, refl),
    (
      (refl, refl, refl),
      ((refl, refl), (tt, ((refl, refl), ((refl, refl), (refl, ((refl, refl), tt)))))),
    ),
  ),
)

run-IsInPhase_example :
    IsInPhase (run texts events (started "/api/v3" 10)).0
    × AreSerial texts (started "/api/v3" 10) events
run-IsInPhase_example =
    run-IsInPhase texts events (started "/api/v3" 10) (started-IsInPhase "/api/v3" 10) enabled

serve-drains_example :
    ((run texts (serve ("a" ∷ "b" ∷ [])) (up client (first ∷ second ∷ []))).0 ≡ up client [])
    × (replies (run texts (serve ("a" ∷ "b" ∷ [])) (up client (first ∷ second ∷ []))).1
        ≡ pair_up texts (first ∷ second ∷ []) ("a" ∷ "b" ∷ []))
    × (writes (run texts (serve ("a" ∷ "b" ∷ [])) (up client (first ∷ second ∷ []))).1
        ≡ targets_after (first ∷ second ∷ []))
serve-drains_example = serve-drains texts client (first ∷ second ∷ []) ("a" ∷ "b" ∷ []) refl

lost-recovers_example :
    let by_write =
      run texts (written (some (other 1)) ∷ remade texts client) (up client (first ∷ [])) in
    let by_read =
      run texts
        (written none ∷ received (some (other 1)) "" ∷ remade texts client)
        (up client (first ∷ [])) in
    (by_write.0 ≡ up client (first ∷ []))
    × (replies by_write.1 ≡ [])
    × (writes by_write.1 ≡ first.target ∷ [])
    × (by_read.0 ≡ up client (first ∷ []))
    × (replies by_read.1 ≡ [])
    × (writes by_read.1 ≡ first.target ∷ [])
lost-recovers_example = lost-recovers texts client (other 1) "" first [] refl

connected_client : client.connected ≡ true
connected_client = refl
