-- ===== src/Middleware.antt =====
-- MiddleWare/Interface.cpp: messages with headers over Kafka, and the requests and responses that are
-- made of them. Kafka is outside: a record that is handed to its producer is an effect, and what its
-- consumer polls is an argument. `Error` values are named by the constructor of what they report.
pub mod Requests
pub mod Loop
pub mod Killing
pub mod Starting
pub mod RoundTrip
pub mod Book
pub mod Dispatch
mod Tests
use multi_market_prices.Prelude.{
  ℕ, Bool, true, false, Option, none, some, List, [], ◌∷◌, String, string_eq, string_dec, ◌==◌,
  if◌then◌else◌, Map, lookup, is_some, get_or,
}
use multi_market_prices.Constants.Messages.{
  MessageType, message_type_text, HeaderKey, header_key_text,
}

-- `KeyValuePairs`: the headers by the text of their key.
abbrev pub Headers : Type 0
Headers = Map String String

-- `ProducerRecord`
pub record Record : Type 0 where
  pub topic : String
  pub key : String
  pub payload : String
  pub headers : Headers

-- What `MsgCallback` is called with.
pub record Message : Type 0 where
  pub topic : String
  pub partition : ℕ
  pub offset : ℕ
  pub msg_type : String
  pub key : String
  pub headers : Headers
  pub payload : String

pub data ApiError : Type 0 where
  ok topic_empty msg_type_empty key_empty payload_empty subscription_failed : ApiError
  invalid_instrument_type non_existent_req_id pong_callback_not_registered : ApiError

pub data Fault : Type 0 where
  missing_resp_id missing_req_id missing_dest_topic : Fault
  invalid_is_last invalid_resp_id invalid_req_id duplicate_req_id : String → Fault
  unknown_req_id : ℕ → Fault

pub data MiddlewareEffect : Type 0 where
  -- `producer->send`
  send : Record → MiddlewareEffect
  -- `errCallback`
  report : Fault → MiddlewareEffect
  respond_to : ℕ → String → Bool → MiddlewareEffect
  pong : ℕ → MiddlewareEffect
  handle : ℕ → String → MiddlewareEffect
  deliver : Message → MiddlewareEffect
  -- The flag `g_shutdownRequested`.
  request_shutdown : MiddlewareEffect

-- `producerFunc`: the empty payload is allowed.
unfoldable pub produce :
    String → String → String → String → Headers → ApiError × List MiddlewareEffect
unfolding string_dec
produce topic msg_type key payload headers =
    if topic == ""
    then (topic_empty, [])
    else if msg_type == ""
    then (msg_type_empty, [])
    else if key == ""
    then (key_empty, [])
    else (
      ok,
      send (record {
        topic = topic;
        key = key;
        payload = payload;
        headers = (header_key_text HeaderKey.message_type, msg_type) ∷ headers;
      })
          ∷ [],
    )

-- `lowLevelProducerFunc`: `none` is a null pointer.
unfoldable pub low_level_produce :
    Option String
    → Option String
    → Option String
    → Option String
    → Headers
    → ApiError × List MiddlewareEffect
low_level_produce none msg_type key payload headers = (topic_empty, [])
low_level_produce (some topic) none key payload headers = (msg_type_empty, [])
low_level_produce (some topic) (some msg_type) none payload headers = (key_empty, [])
low_level_produce (some topic) (some msg_type) (some key) none headers = (payload_empty, [])
low_level_produce (some topic) (some msg_type) (some key) (some payload) headers = (
  ok,
  send (record {
    topic = topic;
    key = key;
    payload = payload;
    headers = (header_key_text HeaderKey.message_type, msg_type) ∷ headers;
  })
      ∷ [],
)

-- `headers.emplace` for each header of a record: the first with a key stays, and `lookup` finds it. The
-- type of the message is its header, and the empty text if there is none.
unfoldable pub receive : ℕ → ℕ → Record → Message
receive partition offset r = record {
  topic = r.topic;
  partition = partition;
  offset = offset;
  msg_type = get_or (lookup (header_key_text HeaderKey.message_type) r.headers) "";
  key = r.key;
  headers = r.headers;
  payload = r.payload;
}
