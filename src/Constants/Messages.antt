-- ===== src/Constants/Messages.antt =====
-- Constants.h: the types of the messages. Each constant is a value, and its text is what is sent.
use multi_market_prices.Prelude.{
  ◌≡◌, refl, some, List, [], ◌∷◌, String, string_eq, string_dec, find_by, find_by-injective,
}

pub data MessageType : Type 0 where
  dummy_message price_blanked heart_beat subscribe unsubscribe virtual_depth_update : MessageType
  depth_update trade_update request response price_request price_response instrument_request :
      MessageType
  instrument_response last_response web_server_update sync_data_request sync_data_update :
      MessageType
  sync_data app_down app_up request_stop component_subscription_update admin_query : MessageType
  admin_query_response registration component_enquiry component_subscription : MessageType
  component_enquiry_response status_update : MessageType

abbrev pub message_type_text : MessageType → String
message_type_text MessageType.dummy_message = "dummy_message"
message_type_text MessageType.price_blanked = "price_blanked"
message_type_text MessageType.heart_beat = "heartBeat"
message_type_text MessageType.subscribe = "subscribe"
message_type_text MessageType.unsubscribe = "unsubscribe"
message_type_text MessageType.virtual_depth_update = "virtual_depth_update"
message_type_text MessageType.depth_update = "depth_update"
message_type_text MessageType.trade_update = "trade_update"
message_type_text MessageType.request = "request"
message_type_text MessageType.response = "response"
message_type_text MessageType.price_request = "price_request"
message_type_text MessageType.price_response = "price_response"
message_type_text MessageType.instrument_request = "instrument_request"
message_type_text MessageType.instrument_response = "instrument_response"
message_type_text MessageType.last_response = "last_response"
message_type_text MessageType.web_server_update = "web_server_update"
message_type_text MessageType.sync_data_request = "sync_data_request"
message_type_text MessageType.sync_data_update = "sync_data_update"
message_type_text MessageType.sync_data = "sync_data"
message_type_text MessageType.app_down = "app_down"
message_type_text MessageType.app_up = "app_up"
message_type_text MessageType.request_stop = "request_stop"
message_type_text MessageType.component_subscription_update = "component_subscription_update"
message_type_text MessageType.admin_query = "admin_query"
message_type_text MessageType.admin_query_response = "admin_query_response"
message_type_text MessageType.registration = "registration"
message_type_text MessageType.component_enquiry = "component_enquiry"
message_type_text MessageType.component_subscription = "component_subscription"
message_type_text MessageType.component_enquiry_response = "component_enquiry_response"
message_type_text MessageType.status_update = "status_update"

abbrev pub all_message_type_text : List MessageType
all_message_type_text =
    MessageType.dummy_message ∷ MessageType.price_blanked ∷ MessageType.heart_beat
    ∷ MessageType.subscribe ∷ MessageType.unsubscribe ∷ MessageType.virtual_depth_update
    ∷ MessageType.depth_update ∷ MessageType.trade_update ∷ MessageType.request
    ∷ MessageType.response ∷ MessageType.price_request ∷ MessageType.price_response
    ∷ MessageType.instrument_request ∷ MessageType.instrument_response ∷ MessageType.last_response
    ∷ MessageType.web_server_update ∷ MessageType.sync_data_request ∷ MessageType.sync_data_update
    ∷ MessageType.sync_data ∷ MessageType.app_down ∷ MessageType.app_up ∷ MessageType.request_stop
    ∷ MessageType.component_subscription_update ∷ MessageType.admin_query
    ∷ MessageType.admin_query_response ∷ MessageType.registration ∷ MessageType.component_enquiry
    ∷ MessageType.component_subscription ∷ MessageType.component_enquiry_response
    ∷ MessageType.status_update ∷ []

message_type_text_found :
    (x : MessageType)
    → find_by message_type_text (message_type_text x) all_message_type_text ≡ some x
unfolding string_dec
message_type_text_found MessageType.dummy_message = refl
message_type_text_found MessageType.price_blanked = refl
message_type_text_found MessageType.heart_beat = refl
message_type_text_found MessageType.subscribe = refl
message_type_text_found MessageType.unsubscribe = refl
message_type_text_found MessageType.virtual_depth_update = refl
message_type_text_found MessageType.depth_update = refl
message_type_text_found MessageType.trade_update = refl
message_type_text_found MessageType.request = refl
message_type_text_found MessageType.response = refl
message_type_text_found MessageType.price_request = refl
message_type_text_found MessageType.price_response = refl
message_type_text_found MessageType.instrument_request = refl
message_type_text_found MessageType.instrument_response = refl
message_type_text_found MessageType.last_response = refl
message_type_text_found MessageType.web_server_update = refl
message_type_text_found MessageType.sync_data_request = refl
message_type_text_found MessageType.sync_data_update = refl
message_type_text_found MessageType.sync_data = refl
message_type_text_found MessageType.app_down = refl
message_type_text_found MessageType.app_up = refl
message_type_text_found MessageType.request_stop = refl
message_type_text_found MessageType.component_subscription_update = refl
message_type_text_found MessageType.admin_query = refl
message_type_text_found MessageType.admin_query_response = refl
message_type_text_found MessageType.registration = refl
message_type_text_found MessageType.component_enquiry = refl
message_type_text_found MessageType.component_subscription = refl
message_type_text_found MessageType.component_enquiry_response = refl
message_type_text_found MessageType.status_update = refl

pub message_type_text_injective :
    (x y : MessageType) → message_type_text x ≡ message_type_text y → x ≡ y
message_type_text_injective =
    find_by-injective message_type_text all_message_type_text message_type_text_found

pub data HeaderKey : Type 0 where
  message_type req_id resp_id dest_topic response_error req_type resp_type is_last : HeaderKey

abbrev pub header_key_text : HeaderKey → String
header_key_text HeaderKey.message_type = "message_type"
header_key_text HeaderKey.req_id = "reqId"
header_key_text HeaderKey.resp_id = "respId"
header_key_text HeaderKey.dest_topic = "destTopic"
header_key_text HeaderKey.response_error = "response_error"
header_key_text HeaderKey.req_type = "reqType"
header_key_text HeaderKey.resp_type = "respType"
header_key_text HeaderKey.is_last = "isLast"

abbrev pub all_header_key_text : List HeaderKey
all_header_key_text =
    HeaderKey.message_type ∷ HeaderKey.req_id ∷ HeaderKey.resp_id ∷ HeaderKey.dest_topic
    ∷ HeaderKey.response_error ∷ HeaderKey.req_type ∷ HeaderKey.resp_type ∷ HeaderKey.is_last ∷ []

header_key_text_found :
    (x : HeaderKey) → find_by header_key_text (header_key_text x) all_header_key_text ≡ some x
unfolding string_dec
header_key_text_found HeaderKey.message_type = refl
header_key_text_found HeaderKey.req_id = refl
header_key_text_found HeaderKey.resp_id = refl
header_key_text_found HeaderKey.dest_topic = refl
header_key_text_found HeaderKey.response_error = refl
header_key_text_found HeaderKey.req_type = refl
header_key_text_found HeaderKey.resp_type = refl
header_key_text_found HeaderKey.is_last = refl

pub header_key_text_injective : (x y : HeaderKey) → header_key_text x ≡ header_key_text y → x ≡ y
header_key_text_injective =
    find_by-injective header_key_text all_header_key_text header_key_text_found

pub data ReqType : Type 0 where
  ping : ReqType

abbrev pub req_type_text : ReqType → String
req_type_text ReqType.ping = "ping"

abbrev pub all_req_type_text : List ReqType
all_req_type_text = ReqType.ping ∷ []

req_type_text_found :
    (x : ReqType) → find_by req_type_text (req_type_text x) all_req_type_text ≡ some x
unfolding string_dec
req_type_text_found ReqType.ping = refl

pub req_type_text_injective : (x y : ReqType) → req_type_text x ≡ req_type_text y → x ≡ y
req_type_text_injective = find_by-injective req_type_text all_req_type_text req_type_text_found

pub data RespType : Type 0 where
  pong : RespType

abbrev pub resp_type_text : RespType → String
resp_type_text RespType.pong = "pong"

abbrev pub all_resp_type_text : List RespType
all_resp_type_text = RespType.pong ∷ []

resp_type_text_found :
    (x : RespType) → find_by resp_type_text (resp_type_text x) all_resp_type_text ≡ some x
unfolding string_dec
resp_type_text_found RespType.pong = refl

pub resp_type_text_injective : (x y : RespType) → resp_type_text x ≡ resp_type_text y → x ≡ y
resp_type_text_injective = find_by-injective resp_type_text all_resp_type_text resp_type_text_found
