-- ===== src/Router/Tests.antt =====
-- CrazyRouters.hpp: tests of the routers, and their theorems at concrete inputs.
use multi_market_prices.Prelude.{
  Map, ℕ, ◌+◌, ◌≡◌, refl, Bool, true, false, not, ◌&&◌, List, [], ◌∷◌, String, string_eq, nat_eq,
  string_dec, nat_dec, ◌==◌, if◌then◌else◌, arith, lookup, contains, insert, erase, assign, remove,
}
use multi_market_prices.Router.PubSub.{
  PubSubDataRouter, init, data_call, keyed_call, produce, consume, unregister, consume_every_thing,
  remove_from_routing_table, remove_from_reg_id_store,
}
use multi_market_prices.Router.PubSub.Views.{subscription}
use multi_market_prices.Router.PubSub.Invariant.{IsConsistent, init-IsConsistent}
use multi_market_prices.Router.PubSub.Histories.{
  Command, consumes, consumes_every_thing, unregisters, unregisters_all, step, run, ideal,
  run-IsConsistent, subscription-step,
}
use multi_market_prices.Router.PubSub.Delivery.{Delivers, produce-Delivers}
use multi_market_prices.Router.Requests
use multi_market_prices.Router.EndToEnd
use multi_market_prices.Router.EndToEnd.{EndToEndReqRespRouter}
use multi_market_prices.Router.EndToEnd.Simulation.{generic, lifted, router_equivalence}
use multi_market_prices.Router.Requests.{
  responds, requests, Listener, Forwarder, GenericReqRespRouter, request, register_as_responder,
  unregister_as_responder,
}
use multi_market_prices.Router.Requests.Drain.{Decreases, Returns, request-Returns}
use multi_market_prices.Router.Requests.Pending.{
  deliver_all, through_last, any_last, deliver_all-through_last,
}
use multi_market_prices.Router.Requests.Responders.{IsBooked}

abbrev Prices : Type 0
Prices = PubSubDataRouter String ℕ ℕ ℕ

abbrev history : List (Command String ℕ ℕ ℕ)
history =
    consumes "BTCUSDT:trade" 1 10
    ∷ consumes "BTCUSDT:trade" 2 20
    ∷ consumes "BTCUSDT:depth" 1 11
    ∷ consumes_every_thing 0 99
    ∷ unregisters "BTCUSDT:trade" 2
    ∷ []

abbrev prices : Prices
prices = run init history

produce_both :
    produce {D = ℕ} prices "BTCUSDT:trade" 7
    ≡ (true, data_call 1 10 7 ∷ keyed_call 0 99 "BTCUSDT:trade" 7 ∷ [])
unfolding run produce string_dec nat_dec step consume unregister lookup contains insert erase
    remove_from_routing_table consume_every_thing assign remove remove_from_reg_id_store
produce_both = refl

run-IsConsistent_example : IsConsistent prices
run-IsConsistent_example = run-IsConsistent history

subscription-step_example :
    subscription (step prices (unregisters_all 1)).0 "BTCUSDT:depth" 1
    ≡ ideal {KC = ℕ} (subscription prices) (unregisters_all 1) "BTCUSDT:depth" 1
subscription-step_example =
    subscription-step prices (unregisters_all 1) (run-IsConsistent history) "BTCUSDT:depth" 1

produce-Delivers_example :
    Delivers {D = ℕ} prices "BTCUSDT:trade" 7 (produce prices "BTCUSDT:trade" 7)
produce-Delivers_example = produce-Delivers prices "BTCUSDT:trade" 7 (run-IsConsistent history)

-- Type 0 asks type 1 before it answers.
abbrev asks : Listener ℕ ℕ ℕ ℕ
asks d = requests 2 1 d ∷ responds true d ∷ []

abbrev answers : Listener ℕ ℕ ℕ ℕ
answers d = responds false d ∷ responds true (d + 1) ∷ []

abbrev Snapshots : Type 0
Snapshots = GenericReqRespRouter ℕ ℕ ℕ ℕ ℕ

abbrev new_router : Snapshots
new_router = record {
  self = 7;
  req_pending = false;
  req_router = init;
  pending_req_processors = [];
  pending_req_ids = [];
  responder_book = [];
}

abbrev snapshots : Snapshots
snapshots = record new_router {
  req_router = record {
    routing_table = (0, (7, asks) ∷ []) ∷ (1, (7, answers) ∷ []) ∷ [];
    reg_id_to_keys = (7, 0 ∷ 1 ∷ []) ∷ [];
    everything_subscribers = [];
  };
  responder_book = (0, 1) ∷ (1, 1) ∷ [];
}

abbrev weight : Forwarder ℕ ℕ ℕ → ℕ
weight f = if f.req_type == 0 then 2 else 1

snapshots-Decreases : Decreases weight snapshots
unfolding produce lookup nat_dec
snapshots-Decreases f = ground arith

abbrev question : Forwarder ℕ ℕ ℕ
question = record { req_id = 1; req_type = 0; req_data = 5 }

request-Returns_example : Returns weight snapshots question (request 3 snapshots question)
unfolding nat_dec
request-Returns_example =
    request-Returns weight 3 snapshots question snapshots-Decreases refl refl (omega arith)

abbrev waiting : Snapshots
waiting = record snapshots { pending_req_ids = 4 ∷ 5 ∷ [] }

abbrev replies : List (Bool × ℕ)
replies = (false, 1) ∷ (true, 2) ∷ (false, 3) ∷ []

deliver_all-through_last_example :
    ((deliver_all waiting 4 replies).1 ≡ through_last 4 replies)
    × ((j : ℕ)
        → contains j (deliver_all waiting 4 replies).0.pending_req_ids
          ≡ (not (any_last replies && 4 == j) && contains j waiting.pending_req_ids))
unfolding contains nat_dec
deliver_all-through_last_example = deliver_all-through_last waiting 4 replies refl

new_router-IsBooked : IsBooked new_router
unfolding subscription lookup
new_router-IsBooked = record { consistent = init-IsConsistent; booked = λ t. refl }

-- The same listeners, under their responders' names.
abbrev end_to_end : EndToEndReqRespRouter ℕ ℕ ℕ ℕ
end_to_end = record {
  self = 7;
  req_pending = false;
  pending_req_processors = [];
  req_router = snapshots.req_router;
  pending_req_ids = 4 ∷ [];
}

abbrev books : Map ℕ ℕ
books = (0, 1) ∷ []

router_equivalence_example :
    (Requests.request 3 (generic books end_to_end) question
      ≡ lifted books (EndToEnd.request 3 end_to_end question))
    × (Requests.enqueue (generic books end_to_end) question ≡ (
      generic books (EndToEnd.enqueue end_to_end question).0,
      (EndToEnd.enqueue end_to_end question).1,
    ))
    × (Requests.deliver (generic books end_to_end) 4 true 9 ≡ (
      generic books (EndToEnd.deliver end_to_end 4 true 9).0,
      (EndToEnd.deliver end_to_end 4 true 9).1,
    ))
    × (Requests.cancel_request (generic books end_to_end) 4 ≡ (
      generic books (EndToEnd.cancel_request end_to_end 4).0,
      (EndToEnd.cancel_request end_to_end 4).1,
    ))
router_equivalence_example = router_equivalence books 3 end_to_end question 4 true 9
