-- ===== src/Programs/Benchmark/Tests.antt =====
-- BinanceMDPerformanceTests.cpp: tests at a gateway, and the theorem at a concrete input.
use Prim.Native.Char.{code}
use multi_market_prices.Prelude.{
  ◌≡◌, refl, Bool, true, false, ◌&&◌, Option, none, some, [], ◌∷◌, String, string_eq, nat_eq,
  string_dec, nat_dec, ◌==◌, if◌then◌else◌, Map, lookup, get_or, contains, chr,
}
use multi_market_prices.Constants.Market.{PriceType, price_type_text}
use multi_market_prices.Binance.{Json}
use multi_market_prices.Feed.Subscribing.{IsRequest}
use multi_market_prices.Partition.{Engine, process, operational}
use multi_market_prices.Platform.{Platform}
use multi_market_prices.Platform.Routing.{topics_of}
use multi_market_prices.Programs
use multi_market_prices.Programs.Benchmark.{fields_of, start_performance_test}
use multi_market_prices.Programs.Benchmark.Words.{test_keys}
use multi_market_prices.Programs.Benchmark.Handling.{take_messages}
use multi_market_prices.Programs.Benchmark.Leaving.{start_performance_test_lem}

-- A message is written as the first letter of the type of its price, and its symbol.
abbrev after_letter : String → String
after_letter String.[] = String.[]
after_letter (String.◌∷◌ c s) = s

abbrev type_text : String → String
type_text String.[] = String.[]
type_text (String.◌∷◌ c s) = if code c == b't' then "trade" else "depth"

data Sample : Type 0 where
  text_value message : String → Sample
  null : Sample

abbrev object_of : Sample → Option (Map String Sample)
object_of (message s) = some (
    ("symbol", text_value (after_letter s))
    ∷ ("type", text_value (type_text s))
    ∷ ("destination_topic", text_value "Binance_PT_1")
    ∷ [])
object_of _ = none

abbrev text_of : Sample → Option String
text_of (text_value s) = some s
text_of _ = none

abbrev json : Json Sample
json = record {
  as_object = object_of;
  as_array = λ v. none;
  as_string = text_of;
  of_string = text_value;
  of_object = λ m. null;
  null = null;
  parse = λ s. some (message s);
  serialize = λ m. "";
}

abbrev write : String → String → String
write type symbol =
    if type == "trade" then String.◌∷◌ (chr b't') symbol else String.◌∷◌ (chr b'd') symbol

abbrev writer : Programs.Json (Unit {0})
writer = record {
  parse_object = λ s. none;
  text_at = λ tag obj. none;
  serialize =
      λ fields. write (get_or (lookup "type" fields) "") (get_or (lookup "symbol" fields) "");
}

readable :
    (p : PriceType) (is_sub : Bool) (symbol : String)
    → IsRequest json
        (writer.serialize (fields_of "Binance_PT_1" p is_sub symbol))
        symbol
        (price_type_text p)
        "Binance_PT_1"
unfolding lookup string_dec nat_dec chr
readable PriceType.trade is_sub symbol = record {
  parsed = message (write "trade" symbol);
  request =
      ("symbol", text_value symbol)
      ∷ ("type", text_value "trade")
      ∷ ("destination_topic", text_value "Binance_PT_1")
      ∷ [];
  symbol_value = text_value symbol;
  type_value = text_value "trade";
  topic_value = text_value "Binance_PT_1";
  parses = refl;
  is_object = refl;
  has_symbol = refl;
  is_symbol = refl;
  has_type = refl;
  is_type = refl;
  has_topic = refl;
  is_topic = refl;
}
readable PriceType.depth is_sub symbol = record {
  parsed = message (write "depth" symbol);
  request =
      ("symbol", text_value symbol)
      ∷ ("type", text_value "depth")
      ∷ ("destination_topic", text_value "Binance_PT_1")
      ∷ [];
  symbol_value = text_value symbol;
  type_value = text_value "depth";
  topic_value = text_value "Binance_PT_1";
  parses = refl;
  is_object = refl;
  has_symbol = refl;
  is_symbol = refl;
  has_type = refl;
  is_type = refl;
  has_topic = refl;
  is_topic = refl;
}

-- A machine that is always operational.
abbrev engine : Engine (Unit {0})
engine = record { started = tt; handle_event = λ f e. (f, (process operational e).1) }

abbrev platform : Platform (Unit {0})
platform = record {
  app_id = "gw";
  app_group = "md";
  in_topic = "in";
  sync_data_topic = "sync";
  sync_data_request_topic = "sync_req";
  symbol_to_dest_topics = ("BTCUSDT:trade", "app1" ∷ []) ∷ [];
  partition_fsms = (3, tt) ∷ [];
}

abbrev parts : String → String × String × String
parts key = (key, "trade", "BINANCE")

start_performance_test_lem_example :
    let test = start_performance_test writer "in" "Binance_PT_1" in
    (subscribed : Platform (Unit {0})) × (left : Platform (Unit {0})) × (take_messages engine json
        parts
        (λ key. 3)
        test.0
        platform
      ≡ some subscribed)
    × (take_messages engine json parts (λ key. 3) test.1 subscribed ≡ some left)
    × ((k x : String)
        → contains x (topics_of subscribed.symbol_to_dest_topics k) ≡ (
            if "Binance_PT_1" == x && contains k test_keys
            then true
            else contains x (topics_of platform.symbol_to_dest_topics k)))
    × ((k x : String)
        → contains x (topics_of left.symbol_to_dest_topics k) ≡ (
            if "Binance_PT_1" == x && contains k test_keys
            then false
            else contains x (topics_of platform.symbol_to_dest_topics k)))
unfolding string_dec lookup nat_dec
start_performance_test_lem_example =
    start_performance_test_lem engine json parts (λ key. 3) writer "in" "Binance_PT_1" platform
      readable refl (λ key. refl)
