-- ===== src/Binance/Prices.antt =====
-- MDGateways/Binance/Binance.cpp: what comes from the exchange as a price, on its way to the platform.
use Prim.Native.String
use multi_market_prices.Prelude.{
  Bool, true, false, not, ◌||◌, Option, none, some, [], ◌∷◌, String, string_eq, if◌then◌else◌,
  is_some, get_or, lookup, assign, remove, split, to_upper, occurs,
}
use multi_market_prices.Constants.Market.{PriceType, price_type_text}
use multi_market_prices.Constants.Tags.{Tags, tags_text}
use multi_market_prices.Binance.{
  Json, Object, BinanceTag, binance_tag_text, str_to_binance_price_type,
  binance_to_platform_price_type, and_then, key_text,
}

-- `MDUpdateVariant`, without the blanking of prices.
pub data MdUpdate : Type 0 where
  trade_update depth_update : String → MdUpdate

abbrev pub has : {V : Type 0} → BinanceTag → Object V → Bool
has tag obj = is_some (lookup (binance_tag_text tag) obj)

module _ {V : Type 0} (json : Json V) where
  -- `obj[name]`, which enters a null if there is none.
  abbrev pub at_or_null : String → Object V → V
  at_or_null name obj = get_or (lookup name obj) json.null

  -- `addKey`: an exception is caught, but a null that `[]` entered stays.
  unfoldable pub add_key : Object V → Object V × Bool
  unfolding str_to_binance_price_type
  add_key update =
      let with_type = assign "e" (at_or_null "e" update) update in
      let with_symbol = assign "s" (at_or_null "s" with_type) with_type in
      elim (json.as_string (at_or_null "e" update)) [
        | none ↦ (with_type, false)
        | some price_type ↦
            elim (and_then (str_to_binance_price_type price_type) binance_to_platform_price_type) [
              | none ↦ (with_type, false)
              | some p ↦ elim (json.as_string (at_or_null "s" with_type)) [
                | none ↦ (with_symbol, false)
                | some instrument ↦ (
                  assign (tags_text Tags.subscription_key)
                      (json.of_string (String.◌++◌ instrument (price_type_text p))) with_symbol,
                  true,
                )
              ]
            ]
      ]

  -- `generateKeyFromMarketUpdate`
  unfoldable pub generate_key_from_market_update : PriceType → Object V → Option String
  generate_key_from_market_update p update =
      and_then
        (and_then (lookup (binance_tag_text BinanceTag.symbol_websocket) update) json.as_string)
        (λ instrument. some (key_text instrument (price_type_text p)))

  -- The value of one name under another.
  abbrev pub copy_to : String → BinanceTag → Object V → Object V
  copy_to name tag obj = assign name (at_or_null (binance_tag_text tag) obj) obj

  abbrev pub erase_all : Object V → Object V
  erase_all obj = remove (binance_tag_text BinanceTag.quantity) (
      remove (binance_tag_text BinanceTag.price)
        (remove (binance_tag_text BinanceTag.symbol_websocket) obj))

  -- `transformForPlatform`: the values must be texts.
  unfoldable pub transform_for_platform : Object V → Option (Object V × Bool)
  transform_for_platform update =
      if not (has BinanceTag.symbol_websocket update)
        || not (has BinanceTag.price update)
        || not (has BinanceTag.quantity update)
      then some (update, false)
      else and_then (json.as_string (at_or_null "s" update)) (λ symbol.
        and_then (json.as_string (at_or_null "p" update)) (λ price.
          and_then (json.as_string (at_or_null "q" update)) (λ quantity. some (
            erase_all (
                assign "quantity" (json.of_string quantity) (
                  assign "price" (json.of_string price)
                    (assign "symbol" (json.of_string symbol) update))),
            true,
          ))))

  unfoldable pub transform_depth_for_platform : String → Object V → Object V × Bool
  transform_depth_for_platform symbol obj =
      (assign (tags_text Tags.symbol) (json.of_string symbol) obj, true)

  unfoldable pub transform_trade_for_platform : String → Object V → Object V × Bool
  transform_trade_for_platform symbol obj =
      if not (has BinanceTag.symbol_websocket obj)
        || not (has BinanceTag.price obj)
        || not (has BinanceTag.quantity obj)
      then (obj, false)
      else (
        erase_all (
            copy_to (tags_text Tags.quantity) BinanceTag.quantity (
              copy_to (tags_text Tags.price) BinanceTag.price
                (copy_to (tags_text Tags.symbol) BinanceTag.symbol_websocket obj))),
        true,
      )

  -- What is produced for the data of a stream: the key and the update.
  unfoldable pub publish_stream : String → String → Object V → Option (String × MdUpdate)
  unfolding occurs transform_trade_for_platform transform_depth_for_platform
  publish_stream symbol stream obj =
      let trade = transform_trade_for_platform symbol obj in
      let depth = transform_depth_for_platform symbol obj in
      if occurs (price_type_text PriceType.trade) stream
      then if trade.1
        then some (
          key_text symbol (price_type_text PriceType.trade),
          trade_update (json.serialize trade.0),
        )
        else none
      else if occurs (price_type_text PriceType.depth) stream
      then if depth.1
        then some (
          key_text symbol (price_type_text PriceType.depth),
          depth_update (json.serialize depth.0),
        )
        else none
      else none

  -- `onPriceUpdate`: the call of `produceUpdate`, if there is one.
  unfoldable pub on_price_update : String → Option (Option (String × MdUpdate))
  unfolding split to_upper publish_stream
  on_price_update update = and_then (and_then (json.parse update) json.as_object) (λ obj.
      elim (lookup (binance_tag_text BinanceTag.data_) obj) [
        | none ↦ some none
        | some content ↦
            and_then (json.as_string (at_or_null (binance_tag_text BinanceTag.stream) obj))
              (λ symbol_and_stream. elim (split b'@' symbol_and_stream) [
                | [] ↦ some none
                | symbol ∷ rest ↦ elim rest [
                  | [] ↦ some none
                  | stream ∷ more ↦
                      and_then (json.as_object content)
                        (λ obj. some (publish_stream (to_upper symbol) stream obj))
                ]
              ])
      ])
