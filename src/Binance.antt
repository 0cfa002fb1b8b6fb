-- ===== src/Binance.antt =====
-- MDGateways/Binance/Binance.h and Binance.cpp: the keys of the gateway, `symbol:type`, and the
-- commands on them. A JSON object is a map from names to values; the values and the functions of the
-- JSON library are parameters. `none` as a result is an exception, or an index out of range, that
-- leaves the function.
pub mod Prices
pub mod Snapshots
pub mod Launch
pub mod Streams
pub mod Trades
pub mod Bodies
mod Tests
use Prim.Native.String
use multi_market_prices.Prelude.{
  ℕ, Bool, true, false, not, ◌&&◌, ◌||◌, Option, none, some, List, [], ◌∷◌, String, string_eq,
  string_dec, ◌==◌, if◌then◌else◌, is_some, Map, lookup, assign, remove, split, to_lower, to_upper,
}
use multi_market_prices.Constants.Market.{PriceType, price_type_text}
use multi_market_prices.Constants.Tags.{Tags, tags_text}
use multi_market_prices.Constants.Reading.{str_to_price_type}
use multi_market_prices.Session.{M}
use multi_market_prices.Session.Commands.{
  subscribe_trade_on_strand, subscribe_depth_on_strand, unsubscribe_trade_on_strand,
  unsubscribe_depth_on_strand,
}

-- What the code uses of Boost.JSON: the conversions of a value (`none` where they throw), `parse`,
-- `serialize`, and the null that `[]` enters for an absent name.
pub record Json (V : Type 0) : Type 0 where
  pub as_object : V → Option (Map String V)
  pub as_array : V → Option (List V)
  pub as_string : V → Option String
  pub of_string : String → V
  pub of_object : Map String V → V
  pub null : V
  pub parse : String → Option V
  pub serialize : Map String V → String

abbrev pub Object : Type 0 → Type 0
Object V = Map String V

pub data BinancePriceType : Type 0 where
  trade depth_update : BinancePriceType

abbrev pub binance_price_type_text : BinancePriceType → String
binance_price_type_text trade = "trade"
binance_price_type_text depth_update = "depthUpdate"

pub data BinanceTag : Type 0 where
  price_type price quantity symbol_websocket symbol_restapi bids asks data_ stream symbol_list :
      BinanceTag

abbrev pub binance_tag_text : BinanceTag → String
binance_tag_text price_type = "e"
binance_tag_text price = "p"
binance_tag_text quantity = "q"
binance_tag_text symbol_websocket = "s"
binance_tag_text symbol_restapi = "symbol"
binance_tag_text bids = "bids"
binance_tag_text asks = "asks"
binance_tag_text data_ = "data"
binance_tag_text stream = "stream"
binance_tag_text symbol_list = "symbols"

pub data BinanceConfigTag : Type 0 where
  ws_host ws_port ws_path rest_host rest_port rest_api_version ws_throttle_rate_per_sec :
      BinanceConfigTag

abbrev pub binance_config_tag_text : BinanceConfigTag → String
binance_config_tag_text ws_host = "wsHost"
binance_config_tag_text ws_port = "wsPort"
binance_config_tag_text ws_path = "wsPath"
binance_config_tag_text rest_host = "restHost"
binance_config_tag_text rest_port = "restPort"
binance_config_tag_text rest_api_version = "restApiVersion"
binance_config_tag_text ws_throttle_rate_per_sec = "wsThrottleRatePerSec"

-- `strToBinancePriceType`
unfoldable pub str_to_binance_price_type : String → Option BinancePriceType
unfolding string_dec
str_to_binance_price_type s =
    if s == binance_price_type_text trade
    then some trade
    else if s == binance_price_type_text depth_update
    then some depth_update
    else none

abbrev pub binance_to_platform_price_type : BinancePriceType → Option PriceType
binance_to_platform_price_type trade = some PriceType.trade
binance_to_platform_price_type depth_update = some PriceType.depth

abbrev pub exchange_id : String
exchange_id = "BINANCE"

abbrev pub and_then : {A B : Type 0} → Option A → (A → Option B) → Option B
and_then none f = none
and_then (some a) f = f a

-- `symbol + ":" + type`
abbrev pub key_text : String → String → String
key_text symbol type = String.◌++◌ symbol (String.◌++◌ ":" type)

-- `generateKeyFromSubUnsubRequest`: `none` is its result when a tag is missing or no text.
unfoldable pub generate_key_from_sub_unsub_request :
    {V : Type 0} → Json V → Object V → Option String
generate_key_from_sub_unsub_request json request =
    and_then (and_then (lookup (tags_text Tags.symbol) request) json.as_string) (λ symbol.
      and_then (and_then (lookup (tags_text Tags.subscription_type) request) json.as_string)
        (λ type. some (key_text symbol type)))

-- `keyDisintegrationFunc`
unfoldable pub key_disintegration : String → Option (String × String × String)
unfolding split
key_disintegration key = elim (split b':' key) [
  | [] ↦ none
  | symbol ∷ rest ↦ elim rest [ [] ↦ none | type ∷ more ↦ some (symbol, type, exchange_id) ]
]

-- What the two commands on a key have in common: the session's command for the type of the key's price,
-- with the symbol in lower case. A key of another type does nothing.
unfoldable pub command : (String → M) → (String → M) → String → Option M
unfolding split to_lower str_to_price_type
command on_trade on_depth key = elim (split b':' key) [
  | [] ↦ none
  | symbol ∷ rest ↦ elim rest [
    | [] ↦ none
    | type ∷ more ↦ elim (str_to_price_type type) [
      | none ↦ some (λ s. (s, []))
      | some p ↦ elim p [
        | PriceType.trade ↦ some (on_trade (to_lower symbol))
        | PriceType.depth ↦ some (on_depth (to_lower symbol))
      ]
    ]
  ]
]

-- `subscribe` and `unsubscribe`: what they post to the session's strand.
unfoldable pub subscribe : String → Option M
unfolding command subscribe_trade_on_strand subscribe_depth_on_strand
subscribe key = command subscribe_trade_on_strand subscribe_depth_on_strand key

unfoldable pub unsubscribe : String → Option M
unfolding command unsubscribe_trade_on_strand unsubscribe_depth_on_strand
unsubscribe key = command unsubscribe_trade_on_strand unsubscribe_depth_on_strand key

-- The listener of `consumeAllControl`: a `SubRequest`, or an `UnsubRequest`.
unfoldable pub on_control : String → Bool → Option M
unfolding subscribe unsubscribe
on_control key is_sub = if is_sub then subscribe key else unsubscribe key
