-- ===== src/Platform/Requests.antt =====
-- MDGateways/PlatformComm/PlatformComm.cpp, with the types of MDGateways/MDGatewayRouterConfig.h:
-- requests for snapshots and for the list of instruments, and what is answered. `none` from outside
-- is an exception, `none` inside a silent return.
use multi_market_prices.Prelude.{
  ◌||◌, Option, none, some, [], ◌∷◌, String, string_eq, string_dec, ◌==◌, if◌then◌else◌,
}
use multi_market_prices.Platform.{Gateway, Payload, text, object}

pub data MdReqType : Type 0 where
  trade_snapshot depth_snapshot instrument_list : MdReqType

pub data MdResponse : Type 0 where
  trade depth instrument_record : String → MdResponse
  null_snapshot : MdResponse

-- What the router is asked: the type of the request, the symbol, and the price type as it was written.
pub record PriceRequest : Type 0 where
  pub req_type : MdReqType
  pub symbol : String
  pub price_type : String

unfoldable pub handle_price_request :
    {Obj : Type 0} → Gateway Obj → Obj → Option (Option PriceRequest)
unfolding string_dec
handle_price_request lib obj = elim (lib.text_at "type" obj) [
  | none ↦ none
  | some price_type ↦
      if price_type == "depth" || price_type == "trade"
      then elim (lib.text_at "symbol" obj) [
        | none ↦ none
        | some symbol ↦ some (
            some (record {
              req_type = if price_type == "trade" then trade_snapshot else depth_snapshot;
              symbol = symbol;
              price_type = price_type;
            }))
      ]
      else some none
]

-- What a response to a price request makes `respondFunc` send, and one to an instrument request.
unfoldable pub price_response : PriceRequest → MdResponse → Option Payload
price_response req (trade t) = some (text t)
price_response req (depth d) = some (text d)
price_response req (instrument_record r) = none
price_response req null_snapshot = some (
    object
      (("message_type", "price_blanked") ∷ ("symbol", req.symbol) ∷ ("type", req.price_type) ∷ []))

unfoldable pub instrument_response : MdResponse → Option Payload
instrument_response (instrument_record r) = some (text r)
instrument_response _ = none
