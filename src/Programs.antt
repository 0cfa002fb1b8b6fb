-- ===== src/Programs.antt =====
-- The programs around the gateway: SDPMock/SDPMock.cpp, which answers the requests for the
-- subscriptions of a partition, DataTumper/DataDumper.cpp, which pings, and
-- PerformanceTests/BinanceMD/BinanceMDPerformanceTests.cpp, which counts prices. The configuration,
-- JSON and what a user types are parameters.
pub mod Mock
pub mod Exchange
pub mod Download
pub mod Dumper
pub mod Benchmark
pub mod Gateway
mod Tests
use multi_market_prices.Prelude.{
  ℕ, Bool, Option, none, some, List, [], ◌∷◌, String, string_eq, Map, lookup, assign,
}
use multi_market_prices.Constants.Messages.{MessageType, message_type_text}
use multi_market_prices.Constants.Settings.{MiddlewareConfig, middleware_config_text}
use multi_market_prices.Constants.Tags.{Tags, tags_text}

-- What the programs use of Boost.JSON: `parse` with `as_object`, `at` with `as_string` (`none` where
-- they throw), and `serialize` of an object whose values are texts.
pub record Json (Obj : Type 0) : Type 0 where
  pub parse_object : String → Option Obj
  pub text_at : String → Obj → Option String
  pub serialize : List (String × String) → String

-- A value of the messages below.
pub data Value : Type 0 where
  text : String → Value
  number : ℕ → Value

-- The configuration that `Config::init` returns: `at` with `as_string`, `at` with `as_int64` (`none`
-- where they throw) of numbers that are not negative, and the members of the middleware's
-- parameters: none if they are absent, a member `none` if it is no text, and `none` for them all if
-- `as_object` throws.
pub record Configuration : Type 0 where
  pub string_at : String → Option String
  pub int_at : String → Option ℕ
  pub middleware_params : Option (List (String × Option String))

-- The globals `appId` and `appGroup`, which neither `main` assigns: it declares a local `appId`.
abbrev pub global_app_id : String
global_app_id = "DummyDumper_1"

abbrev pub global_app_group : String
global_app_group = "DummyDumper_Group"

-- `getHeartBeatMsg`
abbrev pub heart_beat_msg : List (String × Value)
heart_beat_msg =
    (tags_text Tags.message_type, text (message_type_text MessageType.heart_beat))
    ∷ (tags_text Tags.heart_beat_interval, number 5)
    ∷ (tags_text Tags.heart_beat_timeout, number 30)
    ∷ (tags_text Tags.app_id, text global_app_id)
    ∷ (tags_text Tags.app_group, text global_app_group)
    ∷ []

-- `getDescMsg`
abbrev pub desc_msg : List (String × Value)
desc_msg =
    (tags_text Tags.app_id, text global_app_id)
    ∷ (tags_text Tags.app_group, text global_app_group)
    ∷ []

-- What `main` gives to `initializeMiddleWare`.
pub record Launch : Type 0 where
  pub app_id : String
  pub app_group : String
  pub description : List (String × Value)
  pub heart_beat : List (String × Value)
  pub heartbeat_interval_sec : ℕ
  pub producer_props : Map String String
  pub consumer_props : Map String String
  pub has_pong_callback : Bool
  pub min_available_brokers : ℕ
  pub heartbeats_topic : String
  pub registrations_topic : String
  -- The topic that the callback for the end of the initialization subscribes to.
  pub group_topic : Option String

-- `usage` and `failed` return 1, and `thrown` is an exception that leaves `main`.
pub data Start : Type 0 where
  usage failed thrown : Start
  launched : Launch → Start

abbrev pub and_then : {A : Type 0} → Option A → (A → Start) → Start
and_then none f = thrown
and_then (some a) f = f a

-- `{{MiddlewareConfig::bootstrap_servers(), brokers}}`
abbrev pub broker_props : String → Map String String
broker_props brokers = (middleware_config_text MiddlewareConfig.bootstrap_servers, brokers) ∷ []
