-- ===== src/Platform/Status.antt =====
-- MDGateways/PlatformComm/PlatformComm.cpp and PlatformComm.h: what the gateway tells of itself, and
-- how its communication is set up (`PlatformComm::init`).
use multi_market_prices.Prelude.{
  ℕ, Bool, true, false, not, ◌&&◌, Option, none, some, List, [], ◌∷◌, ◌++◌, String, string_eq,
  string_dec, ◌==◌, if◌then◌else◌,
}
use multi_market_prices.Constants.Messages.{MessageType, message_type_text}
use multi_market_prices.Platform.{Gateway, Payload, object}
use multi_market_prices.Platform.Requests.{PriceRequest, handle_price_request}

pub data GatewayStatus : Type 0 where
  init operational degraded disconnected : GatewayStatus

abbrev pub gateway_status_text : GatewayStatus → String
gateway_status_text init = "init"
gateway_status_text operational = "operational"
gateway_status_text degraded = "degraded"
gateway_status_text disconnected = "disconnected"

-- The globals that the status needs; whether `producerFunc` is set yet.
pub record Publisher : Type 0 where
  pub app_id : String
  pub app_group : String
  pub status_topic : String
  pub current_status : String
  pub current_detail : String
  pub has_producer_func : Bool

pub data StatusEffect : Type 0 where
  -- `producerFunc`: topic, type, key and payload.
  produce : String → String → String → Payload → StatusEffect
  subscribe_group : String → StatusEffect
  call_gateway_init : StatusEffect
  install_timer : ℕ → StatusEffect

-- The globals at the start of `PlatformComm::init`.
abbrev pub new_publisher : String → String → String → Publisher
new_publisher app_id app_group status_topic = record {
  app_id = app_id;
  app_group = app_group;
  status_topic = status_topic;
  current_status = gateway_status_text init;
  current_detail = "";
  has_producer_func = false;
}

abbrev pub build_status_msg : Publisher → Payload
build_status_msg p = object (
    ("message_type", message_type_text MessageType.status_update)
    ∷ ("appId", p.app_id)
    ∷ ("appGroup", p.app_group)
    ∷ ("md_gw_status", p.current_status)
    ∷ ("status_detail", p.current_detail)
    ∷ [])

unfoldable pub do_publish_status : Publisher → List StatusEffect
unfolding string_dec
do_publish_status p =
    if p.has_producer_func && not (p.status_topic == "")
    then produce p.status_topic (message_type_text MessageType.status_update) p.app_id
        (build_status_msg p)
      ∷ []
    else []

-- The function that the gateway gets to publish its status.
unfoldable pub publish_status : GatewayStatus → String → Publisher → Publisher × List StatusEffect
unfolding do_publish_status
publish_status status detail p =
    let p' = record p { current_status = gateway_status_text status; current_detail = detail } in
    (p', do_publish_status p')

abbrev pub desc_msg : Publisher → Payload
desc_msg p = object (("appId", p.app_id) ∷ ("appGroup", p.app_group) ∷ [])

-- `initCb`, for the topic that prices are asked for on.
unfoldable pub init_cb : String → Publisher → Publisher × List StatusEffect
unfolding string_dec
init_cb in_topic p = (
  record p { has_producer_func = true },
  (if not (in_topic == p.app_id) then subscribe_group in_topic ∷ [] else [])
      ++ call_gateway_init ∷ install_timer 5 ∷ [],
)

-- What a request asks for: nothing for a type that is not known, and `none` is an exception.
pub data Asked : Type 0 where
  price : PriceRequest → Asked
  instruments nothing : Asked

-- The request handler of `PlatformComm::init`.
unfoldable pub on_request : {Obj : Type 0} → Gateway Obj → String → Option Asked
unfolding handle_price_request string_dec
on_request lib payload = elim (lib.parse_object payload) [
  | none ↦ none
  | some obj ↦ elim (lib.text_at "message_type" obj) [
    | none ↦ none
    | some msg_type ↦
        if msg_type == message_type_text MessageType.price_request
        then elim (handle_price_request lib obj) [
          | none ↦ none
          | some asked ↦ elim asked [ none ↦ some nothing | some r ↦ some (price r) ]
        ]
        else if msg_type == message_type_text MessageType.instrument_request
        then some instruments
        else some nothing
  ]
]
