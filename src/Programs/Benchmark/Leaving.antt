-- ===== src/Programs/Benchmark/Leaving.antt =====
-- BinanceMDPerformanceTests.cpp at the gateway: what the messages of the test do to the table of the
-- topics.
use multi_market_prices.Prelude.{
  ℕ, ◌≡◌, refl, ap, ◌∙◌, Bool, true, false, ◌&&◌, some, List, [], ◌∷◌, ◌++◌, String, string_eq,
  nat_eq, ◌==◌, if◌then◌else◌, is_some, lookup, contains, All, arith, inl, inr, Option-cases,
  string_dec,
}
use multi_market_prices.Constants.Market.{PriceType, price_type_text}
use multi_market_prices.Binance.{Json}
use multi_market_prices.Binance.Streams.{key_of}
use multi_market_prices.Feed.{gateway}
use multi_market_prices.Feed.Subscribing.{IsRequest, msg_cb-route, type_of}
use multi_market_prices.Middleware.{send, produce, receive, Record}
use multi_market_prices.Partition.{Engine}
use multi_market_prices.Platform.{Platform, msg_cb, route}
use multi_market_prices.Platform.Routing.{topics_of, keep_books, keep_books_from}
use multi_market_prices.Programs
use multi_market_prices.Programs.Benchmark.{
  message_type_of, fields_of, send_each, send_sub_unsubs, start_performance_test, symbols,
}
use multi_market_prices.Programs.Benchmark.Words.{books_of, named_symbols, test_keys, test_word}
use multi_market_prices.Programs.Benchmark.Handling.{
  route_table, route_known, take_messages, HasMachines, Handles, take_some, append-Handles,
  result_of,
}

module _ {F V Obj : Type 0} (engine : Engine F) (json : Json V)
    (disintegrate : String → String × String × String) (partition_for : String → ℕ)
    (writer : Programs.Json Obj) (out_topic app_id : String) where
  -- The gateway reads what the test writes.
  abbrev pub IsReadable : Type 0
  IsReadable =
      (p : PriceType) (is_sub : Bool) (symbol : String)
      → IsRequest json (writer.serialize (fields_of app_id p is_sub symbol)) symbol
          (price_type_text p) app_id

  abbrev record_of : PriceType → Bool → String → Record
  record_of p is_sub symbol = record {
    topic = out_topic;
    key = symbol;
    payload = writer.serialize (fields_of app_id p is_sub symbol);
    headers = ("message_type", message_type_of is_sub) ∷ [];
  }

  sent :
      (p : PriceType) (is_sub : Bool) (symbol : String)
      → (out_topic == "") ≡ false
      → (symbol == "") ≡ false
      → (produce out_topic
          (message_type_of is_sub)
          symbol
          (writer.serialize (fields_of app_id p is_sub symbol))
          []).1
        ≡ send (record_of p is_sub symbol) ∷ []
  unfolding produce string_dec
  sent p true symbol o k = rw (o, k) refl
  sent p false symbol o k = rw (o, k) refl

  received :
      (p : PriceType) (is_sub : Bool) (symbol : String)
      → (receive (partition_for symbol) 0 (record_of p is_sub symbol)).msg_type ≡ type_of is_sub
  unfolding receive lookup string_dec
  received p true symbol = refl
  received p false symbol = refl

  each-Handles :
      (p : PriceType) (is_sub : Bool) (syms : List String) (s : Platform F)
      → IsReadable
      → (out_topic == "") ≡ false
      → All (λ symbol. (symbol == "") ≡ false) syms
      → HasMachines engine json disintegrate partition_for s
      → Handles engine json disintegrate partition_for
          (send_each writer out_topic app_id p is_sub syms)
          (books_of app_id p is_sub syms)
          s
  unfolding send_each take_messages keep_books
  each-Handles p is_sub [] s readable o a m = record {
    after = s;
    handled = refl;
    table = refl;
    known = m;
  }
  each-Handles p is_sub (symbol ∷ syms) s readable o (k, a) m =
      elim (Option-cases (lookup (partition_for symbol) s.partition_fsms)) [
        | inl e ↦ cc (m symbol, ap (λ f. is_some f) e)
        | inr (fsm, e) ↦
            let q = partition_for symbol in
            let key = key_of symbol p in
            let r = record_of p is_sub symbol in
            let out = route engine q fsm key app_id is_sub s in
            let done : result_of engine json disintegrate partition_for r s ≡ some out =
              ap (λ t. msg_cb engine (gateway json disintegrate) q t r.payload s)
                (received p is_sub symbol)
              ∙ msg_cb-route engine json disintegrate q fsm is_sub r.payload app_id symbol p s e
                  (readable p is_sub symbol) in
            let rest = each-Handles p is_sub syms out.0 readable o a (λ other.
              route_known engine q fsm key app_id is_sub s (partition_for other) (m other)) in
            let others = send_each writer out_topic app_id p is_sub syms in
            record {
              after = rest.after;
              handled =
                  ap (λ es. take_messages engine json disintegrate partition_for (es ++ others) s)
                    (sent p is_sub symbol o k)
                  ∙ take_some engine json disintegrate partition_for r others s out done
                  ∙ rest.handled;
              table =
                  rest.table
                  ∙ ap (keep_books (books_of app_id p is_sub syms))
                      (route_table engine q fsm key app_id is_sub s);
              known = rest.known;
            }
      ]

  both-Handles :
      (is_sub : Bool) (s : Platform F)
      → IsReadable
      → (out_topic == "") ≡ false
      → HasMachines engine json disintegrate partition_for s
      → Handles engine json disintegrate partition_for
          (send_sub_unsubs writer out_topic app_id PriceType.trade is_sub
            ++ send_sub_unsubs writer out_topic app_id PriceType.depth is_sub)
          (books_of app_id PriceType.trade is_sub symbols
            ++ books_of app_id PriceType.depth is_sub symbols)
          s
  unfolding send_sub_unsubs
  both-Handles is_sub s readable o m =
      append-Handles engine json disintegrate partition_for
        (send_each writer out_topic app_id PriceType.trade is_sub symbols)
        (send_each writer out_topic app_id PriceType.depth is_sub symbols)
        (books_of app_id PriceType.trade is_sub symbols)
        (books_of app_id PriceType.depth is_sub symbols) s
        (each-Handles PriceType.trade is_sub symbols s readable o named_symbols m)
        (λ t n. each-Handles PriceType.depth is_sub symbols t readable o named_symbols n)

  said :
      (is_sub : Bool) (s : Platform F)
      (v : Handles engine json disintegrate partition_for
        (send_sub_unsubs writer out_topic app_id PriceType.trade is_sub
          ++ send_sub_unsubs writer out_topic app_id PriceType.depth is_sub)
        (books_of app_id PriceType.trade is_sub symbols
          ++ books_of app_id PriceType.depth is_sub symbols)
        s)
      (k x : String)
      → contains x (topics_of v.after.symbol_to_dest_topics k) ≡ (
          if app_id == x && contains k test_keys
          then is_sub
          else contains x (topics_of s.symbol_to_dest_topics k))
  said is_sub s v k x =
      ap (λ t. contains x (topics_of t k)) v.table
      ∙ (keep_books_from
            (books_of app_id PriceType.trade is_sub symbols
              ++ books_of app_id PriceType.depth is_sub symbols)
            s.symbol_to_dest_topics).0
          k x
      ∙ test_word app_id is_sub k x (contains x (topics_of s.symbol_to_dest_topics k))

  -- At a gateway that reads what the test writes, has a machine for every partition that a record
  -- can come on, and gets the records in the order in which they are sent: no message of the test
  -- makes the handler throw. After its subscriptions the test is a topic of each of its ten keys,
  -- after its unsubscriptions it is a topic of none of them, and no other pair of a key and a
  -- topic has changed.
  pub start_performance_test_lem :
      (s : Platform F)
      → IsReadable
      → (out_topic == "") ≡ false
      → HasMachines engine json disintegrate partition_for s
      → let test = start_performance_test writer out_topic app_id in
        (subscribed : Platform F) × (left : Platform F) × (take_messages engine json disintegrate
            partition_for test.0 s
          ≡ some subscribed)
        × (take_messages engine json disintegrate partition_for test.1 subscribed ≡ some left)
        × ((k x : String)
            → contains x (topics_of subscribed.symbol_to_dest_topics k) ≡ (
                if app_id == x && contains k test_keys
                then true
                else contains x (topics_of s.symbol_to_dest_topics k)))
        × ((k x : String)
            → contains x (topics_of left.symbol_to_dest_topics k) ≡ (
                if app_id == x && contains k test_keys
                then false
                else contains x (topics_of s.symbol_to_dest_topics k)))
  unfolding start_performance_test
  start_performance_test_lem s readable o m =
      let first = both-Handles true s readable o m in
      let second = both-Handles false first.after readable o first.known in
      let on = said true s first in
      let off = said false first.after second in
      (
        first.after,
        second.after,
        first.handled,
        second.handled,
        on,
        λ k x. ground (arith, on k x, off k x),
      )
