-- ===== src/Binance/Snapshots.antt =====
-- MDGateways/Binance/Binance.cpp: snapshots and the list of instruments, which the platform asks
-- for. `none` as a result is an exception that leaves the callback.
use multi_market_prices.Prelude.{
  Bool, true, false, not, Option, none, some, List, [], ◌∷◌, String, string_eq, string_dec, ◌==◌,
  if◌then◌else◌, Map, assign, remove, to_upper,
}
use multi_market_prices.Constants.Market.{PriceType}
use multi_market_prices.Constants.Tags.{Tags, tags_text}
use multi_market_prices.Rest.{JsonLib, RestClient, RestEffect, RestError}
use multi_market_prices.Rest.Calls.{get_depth, get_recent_trades}
use multi_market_prices.Platform.Requests.{
  MdResponse, trade, depth, instrument_record, null_snapshot,
}
use multi_market_prices.Binance.{Json, Object, and_then}
use multi_market_prices.Binance.Prices.{at_or_null}

-- The callbacks that `getSnapshot` gives to the REST client, with the symbol in capitals.
pub data SnapshotHandler : Type 0 where
  depth_handler trade_handler : String → SnapshotHandler

-- `getSnapshot`
unfoldable pub get_snapshot :
    {Obj Val : Type 0}
    → JsonLib Obj Val
    → String
    → PriceType
    → RestClient SnapshotHandler
    → List (RestEffect SnapshotHandler Obj)
unfolding to_upper get_depth get_recent_trades
get_snapshot lib symbol_unformatted p client =
    let symbol = to_upper symbol_unformatted in
    elim p [
      | PriceType.depth ↦ get_depth lib symbol "5" (some (depth_handler symbol)) client
      | PriceType.trade ↦ get_recent_trades lib symbol "1" (some (trade_handler symbol)) client
    ]

module _ {V : Type 0} (json : Json V) (message : RestError → String) where
  -- What the handlers call the snapshot's callback with: an object and the text of an error.
  unfoldable pub on_depth : String → Object V → Option RestError → Option (Object V × String)
  on_depth symbol obj (some ec) = some (obj, message ec)
  on_depth symbol obj none =
      and_then (json.as_object (at_or_null json "data" obj))
        (λ content. some (assign (tags_text Tags.symbol) (json.of_string symbol) content, ""))

  unfoldable pub on_trade : String → Object V → Option RestError → Option (Object V × String)
  on_trade symbol obj (some ec) = some (obj, message ec)
  on_trade symbol obj none = and_then (json.as_array (at_or_null json "data" obj)) (λ trades.
      elim trades [
        | [] ↦ none
        | first ∷ more ↦ and_then (json.as_object first) (λ content.
            let named = assign (tags_text Tags.symbol) (json.of_string symbol) content in
            some (remove "qty" (assign "quantity" (at_or_null json "qty" named) named), ""))
      ])

  unfoldable pub on_snapshot :
      SnapshotHandler → Object V → Option RestError → Option (Object V × String)
  unfolding on_depth on_trade
  on_snapshot (depth_handler symbol) obj ec = on_depth symbol obj ec
  on_snapshot (trade_handler symbol) obj ec = on_trade symbol obj ec

  abbrev pub snapshot_of : SnapshotHandler → String → MdResponse
  snapshot_of (depth_handler symbol) s = depth s
  snapshot_of (trade_handler symbol) s = trade s

  -- What the responders for snapshots answer to the platform: whether it is the last response, and it.
  unfoldable pub respond_snapshot :
      SnapshotHandler → Object V → Option RestError → Option (Bool × MdResponse)
  unfolding on_snapshot string_dec
  respond_snapshot h obj ec = elim (on_snapshot h obj ec) [
    | none ↦ none
    | some (snapshot, err) ↦
        some
          (true, if not (err == "") then null_snapshot else snapshot_of h (json.serialize snapshot))
  ]

  -- `transformSnapshot`, which nothing calls.
  unfoldable pub transform_snapshot : String → Object V → Option (Object V)
  transform_snapshot symbol obj =
      let content : Option (Object V) = elim (json.as_array (at_or_null json "data" obj)) [
        | none ↦ json.as_object (at_or_null json "data" obj)
        | some elements ↦ elim elements [
          | [] ↦ none
          | first ∷ more ↦
              and_then (json.as_object first)
                (λ t. some (assign "quantity" (at_or_null json "qty" t) t))
        ]
      ] in
      and_then content (λ matter. some (
        assign "data"
          (json.of_object (assign (tags_text Tags.symbol) (json.of_string symbol) matter)) obj))

-- The responder for the list of instruments, over the symbols that are stored.
unfoldable pub respond_instruments : Map String String → List (Bool × MdResponse)
respond_instruments [] = (true, instrument_record "") ∷ []
respond_instruments ((id, details) ∷ more) =
    (false, instrument_record details) ∷ respond_instruments more
