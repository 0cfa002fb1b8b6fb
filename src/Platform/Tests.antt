-- ===== src/Platform/Tests.antt =====
-- MDGateways/PlatformComm/PlatformComm.cpp: tests of the routing, and its theorems at concrete inputs.
use multi_market_prices.Prelude.{
  ℕ, ◌+◌, ◌||◌, is_some, lacks, arith, ◌≡◌, refl, true, false, some, List, [], ◌∷◌, String,
  string_eq, nat_eq, nat_dec, string_dec, ◌==◌, contains, insert, erase, lookup, assign, remove,
  if◌then◌else◌, All,
}
use multi_market_prices.Partition.{Engine, operational, process, download_end}
use multi_market_prices.Platform.{
  Gateway, Platform, Routes, route, msg_cb, handle_book_keeping,
  handle_book_keeping_for_subscription, handle_book_keeping_for_unsubscription, text, group_of,
  object, request, on_assigned,
}
use multi_market_prices.Platform.Routing.{
  topics_of, Book, keep_books, last_word, IsRouted, keep_books-last_word, empty-IsRouted,
}
use multi_market_prices.Platform.Download.{handle, event_of, response_cb, response_cb-on_assigned}
use multi_market_prices.Platform.Rebalance.{kafka_rebalance_callback, rebalance}
use multi_market_prices.Platform.Rebalance.Asking.{requests_of, rebalance_lem}
use multi_market_prices.Platform.Messages.{Leaves, msg_cb-Leaves}
use multi_market_prices.Platform.Delivery.{
  trade_update, on_price_data, sends, IsMessage, on_price_data_lem,
}

abbrev books : List Book
books =
    (true, "BTC:trade", "app1")
    ∷ (true, "BTC:trade", "app2")
    ∷ (false, "BTC:trade", "app1")
    ∷ (true, "BTC:trade", "app3")
    ∷ []

abbrev table : Routes
table = keep_books books []

table_lem : table ≡ ("BTC:trade", "app2" ∷ "app3" ∷ []) ∷ []
unfolding keep_books handle_book_keeping handle_book_keeping_for_subscription
    handle_book_keeping_for_unsubscription lookup assign remove contains insert erase string_dec
table_lem = refl

keep_books-last_word_example :
    (contains "app1" (topics_of (keep_books books []) "BTC:trade")
      ≡ last_word books "BTC:trade" "app1" false)
    × IsRouted (keep_books books [])
keep_books-last_word_example = keep_books-last_word books "BTC:trade" "app1"

-- Texts in place of JSON objects.
abbrev gateway : Gateway String
gateway = record {
  parse_object = λ s. some s;
  text_at = λ tag s. some s;
  key_gen = λ is_sub s. some s;
  disintegrate = λ key. (key, "trade", "binance");
}

no_wild_card : ◌==◌ {A = String} "BTC:trade" "*" ≡ false
unfolding string_dec
no_wild_card = refl

on_price_data_lem_example :
    ((x : String)
      → sends x (on_price_data gateway "BTC:trade" (trade_update "7") table)
        ≡ (if contains x (topics_of table "BTC:trade") then 1 else 0))
    × All
        (IsMessage "trade_update" "BTC:trade" (text "7"))
        (on_price_data gateway "BTC:trade" (trade_update "7") table)
on_price_data_lem_example =
    on_price_data_lem gateway "BTC:trade" (trade_update "7") table
      (keep_books-last_word books "BTC:trade" "app1").1 no_wild_card

-- A machine that is always operational.
abbrev engine : Engine (Unit {0})
engine = record { started = tt; handle_event = λ f e. (f, (process operational e).1) }

abbrev platform : Platform (Unit {0})
platform = record {
  app_id = "gw";
  app_group = "md";
  in_topic = "in";
  sync_data_topic = "sync";
  sync_data_request_topic = "sync_req";
  symbol_to_dest_topics = ("BTC:trade", "app2" ∷ "app3" ∷ []) ∷ [];
  partition_fsms = (3, tt) ∷ [];
}

group_of_3 : group_of 3 platform ≡ "md:in:3"
unfolding group_of
group_of_3 = refl

abbrev unrouted : Platform (Unit {0})
unrouted = record platform { symbol_to_dest_topics = [] }

subscribed :
    msg_cb engine gateway 3 "subscribe" "BTC:trade" unrouted
    ≡ some (route engine 3 tt "BTC:trade" "BTC:trade" true unrouted)
unfolding msg_cb lookup string_dec nat_dec
subscribed = refl

msg_cb-Leaves_example : Leaves engine (msg_cb engine gateway 3 "subscribe" "BTC:trade" unrouted)
msg_cb-Leaves_example =
    msg_cb-Leaves engine gateway 3 "subscribe" "BTC:trade" unrouted empty-IsRouted

response_cb-on_assigned_example :
    let assigned = on_assigned engine 77 4 platform in
    (assigned.1
      ≡ request 77 (object (("group", "md:in:4") ∷ ("destination_topic", "gw") ∷ [])) "sync_req"
        ∷ [])
    × (response_cb engine gateway "md:in:4" true assigned.0
        ≡ some (handle engine gateway 4 tt download_end assigned.0))
unfolding group_of lacks lookup nat_dec event_of
response_cb-on_assigned_example =
    response_cb-on_assigned engine gateway platform 4 77 "md:in:4" "md:in:4" true download_end
      (refl, refl, ground arith) refl refl refl refl

-- Partition 3 has a machine.
rebalance_lem_example :
    let tps : List (String × ℕ) = ("in", 2) ∷ ("in", 3) ∷ ("in", 5) ∷ [] in
    let assigned = rebalance engine (λ n. n + 70) 0 (kafka_rebalance_callback true tps) platform in
    let revoked = rebalance engine (λ n. n + 70) 0 (kafka_rebalance_callback false tps) platform in
    (requests_of assigned.1 ≡ 70 ∷ 72 ∷ [])
    × ((p : ℕ)
        → is_some (lookup p assigned.0.partition_fsms)
          ≡ (contains p (2 ∷ 3 ∷ 5 ∷ []) || is_some (lookup p platform.partition_fsms)))
    × (requests_of revoked.1 ≡ [])
    × ((p : ℕ)
        → is_some (lookup p revoked.0.partition_fsms) ≡ is_some (lookup p platform.partition_fsms))
unfolding lookup contains nat_dec
rebalance_lem_example =
    rebalance_lem engine (λ n. n + 70) 0 (("in", 2) ∷ ("in", 3) ∷ ("in", 5) ∷ []) platform
      (refl, (refl, (refl, tt)))
