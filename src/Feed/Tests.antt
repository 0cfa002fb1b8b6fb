-- ===== src/Feed/Tests.antt =====
-- Tests of the way of a price and of a subscription, and their theorems at concrete inputs.
use multi_market_prices.Prelude.{
  ◌≡◌, refl, true, false, ◌||◌, Option, none, some, List, [], ◌∷◌, String, string_eq, nat_eq,
  string_dec, nat_dec, ◌==◌, if◌then◌else◌, Map, lookup, insert, contains, All, to_lower, to_upper,
  lacks,
}
use multi_market_prices.Constants.Market.{PriceType}
use multi_market_prices.Binance.{Json}
use multi_market_prices.Binance.Streams.{IsFrame, IsSymbol, stream_of}
use multi_market_prices.Partition.{Engine, process, operational}
use multi_market_prices.Platform.{Platform, PlatformEffect, msg_cb, text}
use multi_market_prices.Platform.Routing.{topics_of, Book, keep_books, last_word, empty-IsRouted}
use multi_market_prices.Platform.Delivery.{sends, IsMessage}
use multi_market_prices.Session.{M, init}
use multi_market_prices.Session.Connection.{on_handshake, on_write}
use multi_market_prices.Session.Commands.{subscribe_stream}
use multi_market_prices.Session.Exchange.{
  World, Event, subscribes, unsubscribes, written, exec, step, insert_all,
}
use multi_market_prices.Session.Lifecycle.{connected_world, connected-Sync}
use multi_market_prices.Session.Sync.{Sync, IsSafe, run}
use multi_market_prices.Feed.{gateway, control_router, post_controls, on_frame}
use multi_market_prices.Feed.Prices.{content_of, frame_reaches_topics}
use multi_market_prices.Feed.Subscribing.{IsRequest}
use multi_market_prices.Feed.Serving.{subscription_is_served}
use multi_market_prices.Feed.Starving.{unsubscription_starves}

-- Texts, and a few values that are objects.
data Sample : Type 0 where
  text_value : String → Sample
  subscription frame trade null : Sample

abbrev object_of : Sample → Option (Map String Sample)
object_of subscription = some (
    ("symbol", text_value "BTCUSDT")
    ∷ ("type", text_value "trade")
    ∷ ("destination_topic", text_value "app1")
    ∷ [])
object_of frame = some (("stream", text_value "btcusdt@trade") ∷ ("data", trade) ∷ [])
object_of trade =
    some (("s", text_value "BTCUSDT") ∷ ("p", text_value "64000.1") ∷ ("q", text_value "0.5") ∷ [])
object_of _ = none

abbrev text_of : Sample → Option String
text_of (text_value s) = some s
text_of _ = none

abbrev json : Json Sample
json = record {
  as_object = object_of;
  as_array = λ v. none;
  as_string = text_of;
  of_string = text_value;
  of_object = λ m. null;
  null = null;
  parse = λ s. if s == "frame" then some frame else some subscription;
  serialize = λ m. "{}";
}

abbrev a_trade : Map String Sample
a_trade = ("s", text_value "BTCUSDT") ∷ ("p", text_value "64000.1") ∷ ("q", text_value "0.5") ∷ []

btc-IsSymbol : IsSymbol "BTCUSDT"
unfolding to_upper lacks
btc-IsSymbol = (refl, refl, refl)

is_frame : IsFrame json "frame" (stream_of "BTCUSDT" PriceType.trade) a_trade
unfolding to_lower lookup string_dec
is_frame = record {
  parsed = frame;
  frame = ("stream", text_value "btcusdt@trade") ∷ ("data", trade) ∷ [];
  content = trade;
  name = text_value "btcusdt@trade";
  parses = refl;
  is_frame = refl;
  has_content = refl;
  is_object = refl;
  has_name = refl;
  is_name = refl;
}

text-IsRequest :
    (msg : String)
    → (if msg == "frame" then some frame else some subscription) ≡ some subscription
    → IsRequest json msg "BTCUSDT" "trade" "app1"
unfolding lookup string_dec
text-IsRequest msg h = record {
  parsed = subscription;
  request =
      ("symbol", text_value "BTCUSDT")
      ∷ ("type", text_value "trade")
      ∷ ("destination_topic", text_value "app1")
      ∷ [];
  symbol_value = text_value "BTCUSDT";
  type_value = text_value "trade";
  topic_value = text_value "app1";
  parses = h;
  is_object = refl;
  has_symbol = refl;
  is_symbol = refl;
  has_type = refl;
  is_type = refl;
  has_topic = refl;
  is_topic = refl;
}

is_request : IsRequest json "subscribe me" "BTCUSDT" "trade" "app1"
unfolding string_dec
is_request = text-IsRequest "subscribe me" refl

is_leaving : IsRequest json "unsubscribe me" "BTCUSDT" "trade" "app1"
unfolding string_dec
is_leaving = text-IsRequest "unsubscribe me" refl

abbrev parts : String → String × String × String
parts key = (key, "trade", "BINANCE")

abbrev books : List Book
books =
    (true, "BTCUSDT:trade", "app1")
    ∷ (true, "BTCUSDT:trade", "app2")
    ∷ (false, "BTCUSDT:trade", "app1")
    ∷ []

frame_reaches_topics_example :
    (es : List PlatformEffect) × (on_frame json parts "frame" (keep_books books []) ≡ some es)
    × ((x : String) → sends x es ≡ (if last_word books "BTCUSDT:trade" x false then 1 else 0))
    × All
        (IsMessage "trade_update" "BTCUSDT:trade"
          (text (content_of json parts "BTCUSDT" PriceType.trade a_trade)))
        es
unfolding lookup string_dec
frame_reaches_topics_example =
    frame_reaches_topics json parts "BTCUSDT" PriceType.trade "frame" a_trade books btc-IsSymbol
      is_frame refl

-- A machine that is always operational.
abbrev engine : Engine (Unit {0})
engine = record { started = tt; handle_event = λ f e. (f, (process operational e).1) }

abbrev platform : Platform (Unit {0})
platform = record {
  app_id = "gw";
  app_group = "md";
  in_topic = "in";
  sync_data_topic = "sync";
  sync_data_request_topic = "sync_req";
  symbol_to_dest_topics = [];
  partition_fsms = (3, tt) ∷ [];
}

-- The connection came up with nothing subscribed.
abbrev up : World
up = connected_world 0 10 []

up-Sync : Sync up
unfolding run exec
up-Sync = connected-Sync 0 10 [] [] tt tt

up-IsSafe : IsSafe up.session (subscribes (stream_of "BTCUSDT" PriceType.trade))
unfolding run exec on_handshake init contains
up-IsSafe = (refl, refl)

subscription_is_served_example :
    (out : Platform (Unit {0}) × List PlatformEffect) × (m : M) × (es : List PlatformEffect)
    × (msg_cb engine (gateway json parts) 3 "subscribe" "subscribe me" platform ≡ some out)
    × (post_controls control_router out.1 ≡ some m)
    × (contains
          (stream_of "BTCUSDT" PriceType.trade)
          (run (exec m up) (written ∷ written ∷ written ∷ [])).server
        ≡ true)
    × (on_frame json parts "frame" out.0.symbol_to_dest_topics ≡ some es)
    × ((x : String) → sends x es ≡ (if "app1" == x || contains x [] then 1 else 0))
unfolding lookup string_dec nat_dec contains
subscription_is_served_example =
    subscription_is_served engine json parts 3 tt "subscribe me" "app1" "BTCUSDT" PriceType.trade
      platform "frame" a_trade up btc-IsSymbol is_request refl refl empty-IsRouted refl is_frame
      refl up-Sync up-IsSafe

-- The gateway with two topics booked for one key.
abbrev both : Platform (Unit {0})
both = record platform { symbol_to_dest_topics = ("BTCUSDT:trade", "app1" ∷ "app2" ∷ []) ∷ [] }

-- The price's stream is subscribed, and the exchange has answered.
abbrev served_events : List Event
served_events = subscribes (stream_of "BTCUSDT" PriceType.trade) ∷ written ∷ written ∷ written ∷ []

abbrev served : World
served = run up served_events

served-Sync : Sync served
unfolding run exec on_handshake init contains
served-Sync = connected-Sync 0 10 [] served_events tt ((refl, refl), (tt, (tt, (tt, tt))))

served_live : contains (stream_of "BTCUSDT" PriceType.trade) served.server ≡ true
unfolding run step exec on_handshake on_write subscribe_stream init contains insert_all insert
    string_dec to_lower
served_live = refl

leaving-IsSafe : IsSafe served.session (unsubscribes (stream_of "BTCUSDT" PriceType.trade))
unfolding run step exec on_handshake on_write subscribe_stream init contains
leaving-IsSafe = (refl, refl)

unsubscription_starves_example :
    (out : Platform (Unit {0}) × List PlatformEffect) × (m : M) × (msg_cb engine
        (gateway json parts)
        3
        "unsubscribe"
        "unsubscribe me"
        both
      ≡ some out)
    × (post_controls control_router out.1 ≡ some m)
    × (contains "app2" (topics_of out.0.symbol_to_dest_topics "BTCUSDT:trade") ≡ true)
    × (contains
          (stream_of "BTCUSDT" PriceType.trade)
          (run (exec m served) (written ∷ written ∷ written ∷ [])).server
        ≡ false)
unfolding lookup string_dec nat_dec contains
unsubscription_starves_example =
    unsubscription_starves engine json parts 3 tt "unsubscribe me" "app1" "app2" "BTCUSDT"
      PriceType.trade both served btc-IsSymbol is_leaving refl refl refl refl refl served-Sync
      leaving-IsSafe
