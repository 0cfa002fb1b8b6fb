-- ===== src/Programs/Mock.antt =====
-- SDPMock/SDPMock.cpp: the stand-in for the service that knows the subscriptions of a partition. It has
-- none, so its only response to each request is the last one.
use Prim.Native.Char.{code}
use multi_market_prices.Prelude.{
  ℕ, ◌^◌, ◌%◌, ◌||◌, ◌==◌, nat_eq, nat_dec, Bool, true, false, Option, none, some, List, [], ◌∷◌,
  ◌++◌, String, string_eq, Map, assign, if◌then◌else◌, split,
}
use multi_market_prices.Constants.Messages.{MessageType, message_type_text}
use multi_market_prices.Constants.Market.{AppGroup, app_group_text}
use multi_market_prices.Constants.Settings.{
  ConfigTag, config_tag_text, MiddlewareConfig, middleware_config_text,
}
use multi_market_prices.Constants.Tags.{Tags, tags_text}
use multi_market_prices.Middleware.{ApiError, MiddlewareEffect, handle}
use multi_market_prices.Middleware.Requests.{PendingRequestBook, respond}
use multi_market_prices.Programs.{
  Json, Configuration, Start, usage, failed, launched, and_then, heart_beat_msg, desc_msg,
  broker_props,
}

-- `extraConsumerProps`: the parameters of the middleware that are texts.
unfoldable pub extra_props : List (String × Option String) → Map String String → Map String String
extra_props [] props = props
extra_props ((k, none) ∷ params) props = extra_props params props
extra_props ((k, some v) ∷ params) props = extra_props params (assign k v props)

-- The loop that puts them over the consumer's own.
unfoldable pub override : Map String String → Map String String → Map String String
override [] props = props
override ((k, v) ∷ extra) props = override extra (assign k v props)

unfoldable pub consumer_props : String → List (String × Option String) → Map String String
unfolding extra_props override
consumer_props brokers params = override (extra_props params []) (
    (middleware_config_text MiddlewareConfig.bootstrap_servers, brokers)
    ∷ (middleware_config_text MiddlewareConfig.group_id, app_group_text AppGroup.dummy)
    ∷ [])

-- `main`: the argument, and what `Config::init` returns for it.
unfoldable pub main : Option String → (String → Option Configuration) → Start
unfolding consumer_props
main none init = usage
main (some app_id) init = elim (init app_id) [
  | none ↦ failed
  | some cfg ↦ and_then (cfg.int_at (config_tag_text ConfigTag.num_min_brokers)) (λ min_brokers.
      and_then (cfg.string_at (config_tag_text ConfigTag.sync_data_request_topic)) (λ topic.
        and_then (cfg.string_at (config_tag_text ConfigTag.brokers)) (λ brokers.
          and_then (cfg.string_at (config_tag_text ConfigTag.group)) (λ group.
            and_then (cfg.int_at (config_tag_text ConfigTag.hearbeat_interval)) (λ interval.
              and_then cfg.middleware_params (λ params.
                and_then (cfg.string_at (config_tag_text ConfigTag.heartbeats_topic)) (λ beats.
                  and_then (cfg.string_at (config_tag_text ConfigTag.registrations_topic))
                    (λ registrations. launched (record {
                      app_id = app_id;
                      app_group = "SDPMock";
                      description = desc_msg;
                      heart_beat = heart_beat_msg;
                      heartbeat_interval_sec = interval;
                      producer_props = broker_props brokers;
                      consumer_props = consumer_props brokers params;
                      has_pong_callback = false;
                      min_available_brokers = min_brokers % 2 ^ 16;
                      heartbeats_topic = beats;
                      registrations_topic = registrations;
                      group_topic = some topic;
                    })))))))))
]

module _ {Obj : Type 0} (json : Json Obj) where
  -- The handler of requests. `none` is an exception, as in `response_cb`.
  unfoldable pub handle_request :
      ℕ
      → String
      → PendingRequestBook
      → Option (ApiError × PendingRequestBook × List MiddlewareEffect)
  unfolding respond
  handle_request req_id req_payload book = elim (json.parse_object req_payload) [
    | none ↦ none
    | some obj ↦ elim (json.text_at (tags_text Tags.group_identifier) obj) [
      | none ↦ none
      | some group ↦ some (
          respond req_id
            (json.serialize (
              (tags_text Tags.group_identifier, group)
              ∷ (tags_text Tags.message_type, message_type_text MessageType.response)
              ∷ []))
            true book)
    ]
  ]

  -- The requests among what the middleware hands over are handled one after the other.
  unfoldable pub handle_requests :
      List MiddlewareEffect
      → PendingRequestBook
      → Option (PendingRequestBook × List MiddlewareEffect)
  unfolding handle_request
  handle_requests [] book = some (book, [])
  handle_requests (handle req_id req_payload ∷ es) book =
      elim (handle_request req_id req_payload book) [
        | none ↦ none
        | some (error, book', out) ↦ elim (handle_requests es book') [
          | none ↦ none
          | some (book'', outs) ↦ some (book'', out ++ outs)
        ]
      ]
  handle_requests (_ ∷ es) book = handle_requests es book

-- `std::erase_if` with the characters that `responseCb` drops.
unfoldable pub erase_dropped : String → String
unfolding nat_dec
erase_dropped String.[] = String.[]
erase_dropped (String.◌∷◌ c s) =
    if code c == b'\'' || code c == b'(' || code c == b'#' || code c == b')' || code c == b' '
    then erase_dropped s
    else String.◌∷◌ c (erase_dropped s)

-- `responseCb`: the tokens that it logs.
unfoldable pub response_cb : {Obj : Type 0} → Json Obj → String → Bool → Option (List String)
unfolding erase_dropped split
response_cb json msg is_last = elim (json.parse_object msg) [
  | none ↦ none
  | some obj ↦
      if is_last then some [] else elim (json.text_at (tags_text Tags.subscription_key) obj) [
        | none ↦ none
        | some key ↦ some (split b',' (erase_dropped key))
      ]
]
