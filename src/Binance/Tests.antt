-- ===== src/Binance/Tests.antt =====
-- MDGateways/Binance/Binance.cpp: tests of the gateway, and its theorems at concrete inputs.
use multi_market_prices.Prelude.{
  ◌≡◌, refl, ap, true, false, Option, none, some, List, [], ◌∷◌, String, string_eq, string_dec,
  ◌==◌, if◌then◌else◌, Map, lookup, to_lower, to_upper, lacks,
}
use multi_market_prices.Constants.Market.{PriceType}
use multi_market_prices.Session.Commands.{subscribe_stream, unsubscribe_stream}
use multi_market_prices.Rest.{parse_body}
use multi_market_prices.Platform.Requests.{depth}
use multi_market_prices.Binance.{Json, key_disintegration, subscribe, unsubscribe}
use multi_market_prices.Binance.Prices.{on_price_update}
use multi_market_prices.Binance.Streams.{
  IsFrame, IsSymbol, stream_of, update_for, stream_round_trip,
}
use multi_market_prices.Binance.Snapshots.{depth_handler, trade_handler, respond_snapshot}
use multi_market_prices.Binance.Bodies.{rest_lib, IsJson, respond_snapshot-parse_body}
use multi_market_prices.Binance.Launch.{Gateway, new_gateway}
use multi_market_prices.Binance.Launch.Outages.{Event, rest, ws}

-- JSON values without numbers and Booleans; the elements of an array are named by their index.
mutual
  data Sample : Type 0 where
    null : Sample
    text : String → Sample
    object : Fields → Sample
    array : Fields → Sample

  data Fields : Type 0 where
    end : Fields
    field : String → Sample → Fields → Fields

abbrev of_map : Map String Sample → Fields
of_map [] = end
of_map ((k, v) ∷ m) = field k v (of_map m)

abbrev to_map : Fields → Map String Sample
to_map end = []
to_map (field k v f) = (k, v) ∷ to_map f

to_map-of_map : (m : Map String Sample) → to_map (of_map m) ≡ m
to_map-of_map [] = refl
to_map-of_map ((k, v) ∷ m) = ap (λ l. (k, v) ∷ l) (to_map-of_map m)

abbrev values : Fields → List Sample
values end = []
values (field k v f) = v ∷ values f

abbrev object_of : Sample → Option (Map String Sample)
object_of (object f) = some (to_map f)
object_of _ = none

abbrev array_of : Sample → Option (List Sample)
array_of (array f) = some (values f)
array_of _ = none

abbrev text_of : Sample → Option String
text_of (text s) = some s
text_of _ = none

abbrev a_trade : Map String Sample
a_trade = ("s", text "BTCUSDT") ∷ ("p", text "64000.1") ∷ ("q", text "0.5") ∷ ("m", null) ∷ []

abbrev a_frame : Map String Sample
a_frame = ("stream", text "btcusdt@trade") ∷ ("data", object (of_map a_trade)) ∷ []

-- The texts `frame` and `depth` stand for what the exchange sends.
abbrev parse : String → Option Sample
parse s =
    if s == "frame"
    then some (object (of_map a_frame))
    else if s == "depth"
    then some (object (of_map (("bids", null) ∷ [])))
    else some (array (field "0" (object (of_map a_trade)) end))

abbrev json : Json Sample
json = record {
  as_object = object_of;
  as_array = array_of;
  as_string = text_of;
  of_string = text;
  of_object = λ m. object (of_map m);
  null = null;
  parse = parse;
  serialize = λ m. "{}";
}

json-IsJson : IsJson json
json-IsJson = record {
  object_kept = λ m. ap (λ l. some l) (to_map-of_map m);
  object_array = λ m. refl;
  null_object = refl;
  null_array = refl;
}

btc-IsSymbol : IsSymbol "BTCUSDT"
unfolding to_upper lacks
btc-IsSymbol = (refl, refl, refl)

is_frame : IsFrame json "frame" (stream_of "BTCUSDT" PriceType.trade) a_trade
unfolding to_lower lookup string_dec
is_frame = record {
  parsed = object (of_map a_frame);
  frame = a_frame;
  content = object (of_map a_trade);
  name = text "btcusdt@trade";
  parses = refl;
  is_frame = refl;
  has_content = refl;
  is_object = refl;
  has_name = refl;
  is_name = refl;
}

stream_round_trip_example :
    (key_disintegration "BTCUSDT:trade" ≡ some ("BTCUSDT", "trade", "BINANCE"))
    × (subscribe "BTCUSDT:trade" ≡ some (subscribe_stream "btcusdt@trade"))
    × (unsubscribe "BTCUSDT:trade" ≡ some (unsubscribe_stream "btcusdt@trade"))
    × (on_price_update json "frame"
        ≡ some (some ("BTCUSDT:trade", update_for json PriceType.trade "BTCUSDT" a_trade)))
unfolding to_lower lookup string_dec
stream_round_trip_example =
    stream_round_trip json "BTCUSDT" PriceType.trade "frame" a_trade btc-IsSymbol is_frame

respond_snapshot-parse_body_example :
    (respond_snapshot json
        (λ e. "error")
        (depth_handler "BTCUSDT")
        (parse_body (rest_lib json) "depth")
        none
      ≡ some (true, depth "{}"))
    × (respond_snapshot json
          (λ e. "error")
          (trade_handler "BTCUSDT")
          (parse_body (rest_lib json) "depth")
          none
        ≡ none)
unfolding lookup string_dec
respond_snapshot-parse_body_example =
    respond_snapshot-parse_body json (λ e. "error") json-IsJson "BTCUSDT" "depth"

abbrev up : Gateway
up = record new_gateway { rest_connected_once = true; ws_connected_once = true }

abbrev outage : List Event
outage = rest false ∷ ws false ∷ ws true ∷ rest true ∷ ws false ∷ []
