-- ===== src/Programs/Tests.antt =====
-- Tests of the programs around the gateway, and their theorems at concrete inputs.
use multi_market_prices.Prelude.{
  ℕ, ◌≡◌, refl, true, false, none, some, [], ◌∷◌, String, string_eq, nat_eq, string_dec, nat_dec,
  ◌==◌, if◌then◌else◌, assign, lookup, get_or, lacks, contains, split, arith,
}
use multi_market_prices.Middleware.{Message}
use multi_market_prices.Middleware.Requests.{Application, PendingRequestBook}
use multi_market_prices.Partition.{Engine, process, operational, download_end}
use multi_market_prices.Platform.{Platform, on_assigned}
use multi_market_prices.Platform.Download.{handle}
use multi_market_prices.Programs.{text, number, Json, Configuration, launched}
use multi_market_prices.Programs.Mock
use multi_market_prices.Programs.Gateway
use multi_market_prices.Programs.Exchange.{gateway, download}
use multi_market_prices.Programs.Download.{download_lem}
use multi_market_prices.Programs.Dumper.{IsAnswered, main_loop, pings_lem}
use multi_market_prices.Programs.Benchmark.{no_messages, msg_cb, receive_each}

abbrev application : String → Application
application name = record {
  app_id = name;
  description = "a component";
  has_pong_callback = true;
  response_throws = λ n s b. false;
  pong_throws = λ n. false;
}

-- Of an object only the group is written.
abbrev json : Json String
json = record {
  parse_object = λ s. some s;
  text_at = λ tag s. some s;
  serialize = λ fields. get_or (lookup "group" fields) "";
}

abbrev engine : Engine (Unit {0})
engine = record { started = tt; handle_event = λ f e. (f, (process operational e).1) }

abbrev platform : Platform (Unit {0})
platform = record {
  app_id = "gw";
  app_group = "md";
  in_topic = "in";
  sync_data_topic = "sync";
  sync_data_request_topic = "sync_req";
  symbol_to_dest_topics = [];
  partition_fsms = (3, tt) ∷ [];
}

download_lem_example :
    let assigned = on_assigned engine 77 4 platform in
    (book' : PendingRequestBook) × (download engine json
        (λ b s. some s)
        (λ key. (key, "trade", "BINANCE"))
        (some "sync_req")
        (application "sdp")
        77
        4
        platform
        ((5, "other") ∷ [])
        []
      ≡ some (
        handle engine
            (gateway engine json (λ b s. some s) (λ key. (key, "trade", "BINANCE")))
            4
            tt
            download_end
            assigned.0,
        book',
        [],
      ))
    × ((id : ℕ) → lookup id book' ≡ lookup {K = ℕ} {V = String} id ((5, "other") ∷ []))
unfolding lacks lookup nat_dec string_dec contains
download_lem_example =
    download_lem engine json (λ b s. some s) (λ key. (key, "trade", "BINANCE")) (some "sync_req")
      (application "sdp") 77 4 platform ((5, "other") ∷ []) [] (λ fields v h. (v, rw h refl, refl))
      (refl, refl, ground arith) refl (ground arith) refl refl refl refl

pings_lem_example :
    IsAnswered
      (application "dump")
      (application "gw")
      ((5, "other") ∷ [])
      []
      (main_loop (application "dump") ((7, "gw") ∷ (8, "") ∷ (5, "sdp") ∷ (9, "gw") ∷ []))
      (7 ∷ 9 ∷ [])
unfolding string_dec lookup nat_dec
pings_lem_example =
    pings_lem (application "dump") (application "gw") ((5, "other") ∷ []) []
      ((7, "gw") ∷ (8, "") ∷ (5, "sdp") ∷ (9, "gw") ∷ []) refl refl refl (λ n. refl)
      (
        λ e. (ground arith, refl),
        (λ e. ground (arith, e), (λ e. ground (arith, e), (λ e. (ground arith, refl), tt))),
      )

-- A middleware parameter replaces the mock's group, and one that is no text is left out.
abbrev settings : Configuration
settings = record {
  string_at = λ tag. if tag == "brokers" then some "b:9092" else some "x";
  int_at = λ tag. some 3;
  middleware_params =
      some (("group.id", some "mocks") ∷ ("fetch.min.bytes", none) ∷ ("debug", some "all") ∷ []);
}

mock_props :
    Mock.consumer_props "b:9092"
      (("group.id", some "mocks") ∷ ("fetch.min.bytes", none) ∷ ("debug", some "all") ∷ [])
    ≡ ("bootstrap.servers", "b:9092") ∷ ("group.id", "mocks") ∷ ("debug", "all") ∷ []
unfolding Mock.consumer_props Mock.extra_props Mock.override assign string_dec
mock_props = refl

-- The mock that is started as `mock_7` tells the registry that it is `DummyDumper_1`.
tells_other_id :
    Mock.main (some "mock_7") (λ app_id. some settings)
    ≡ launched (record {
      app_id = "mock_7";
      app_group = "SDPMock";
      description = ("appId", text "DummyDumper_1") ∷ ("appGroup", text "DummyDumper_Group") ∷ [];
      heart_beat =
          ("message_type", text "heartBeat")
          ∷ ("HeartBeatInterval", number 5)
          ∷ ("HeartBeatTimeout", number 30)
          ∷ ("appId", text "DummyDumper_1")
          ∷ ("appGroup", text "DummyDumper_Group")
          ∷ [];
      heartbeat_interval_sec = 3;
      producer_props = ("bootstrap.servers", "b:9092") ∷ [];
      consumer_props =
          ("bootstrap.servers", "b:9092") ∷ ("group.id", "mocks") ∷ ("debug", "all") ∷ [];
      has_pong_callback = false;
      min_available_brokers = 3;
      heartbeats_topic = "x";
      registrations_topic = "x";
      group_topic = some "x";
    })
unfolding Mock.main Mock.consumer_props Mock.extra_props Mock.override assign string_dec
tells_other_id = refl

tokens : Mock.response_cb json "('BTCUSDT', 'trade')" false ≡ some ("BTCUSDT" ∷ "trade" ∷ [])
unfolding Mock.response_cb Mock.erase_dropped split nat_dec
tokens = refl

gateway_launch :
    Gateway.init "b:9092" "gw" "md" "gw" 1 "beats" "regs" (("bootstrap.servers", "c:9092") ∷ [])
    ≡ record {
      app_id = "gw";
      app_group = "md";
      description = Gateway.desc_msg "gw" "md";
      heart_beat = Gateway.heart_beat_msg "gw" "md";
      heartbeat_interval_sec = 5;
      producer_props = ("bootstrap.servers", "c:9092") ∷ [];
      consumer_props = ("bootstrap.servers", "c:9092") ∷ [];
      has_pong_callback = false;
      min_available_brokers = 1;
      heartbeats_topic = "beats";
      registrations_topic = "regs";
      group_topic = none;
    }
unfolding Gateway.init Mock.override assign string_dec
gateway_launch = refl

version : Gateway.main ("--version" ∷ []) (λ app_id. some settings) ≡ Gateway.prints_version
unfolding Gateway.main string_dec
version = refl

abbrev message_of : String → Message
message_of type = record {
  topic = "pt";
  partition = 0;
  offset = 0;
  msg_type = type;
  key = "k";
  headers = [];
  payload = "";
}

counted :
    receive_each
      (message_of "trade_update" ∷ message_of "status_update" ∷ message_of "trade_update" ∷ [])
      no_messages
    ≡ record { num_trade_updates_recd = 2; num_depth_updates_recd = 0; num_other_messages_recd = 1 }
unfolding receive_each msg_cb string_dec
counted = refl
