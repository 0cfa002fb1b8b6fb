-- ===== src/Programs/Gateway.antt =====
-- Binance.cpp, `main` and `initMiddleware`, and PlatformComm.cpp, `PlatformComm::init`: what the
-- gateway starts with.
use multi_market_prices.Prelude.{
  ℕ, ◌^◌, ◌%◌, false, Option, none, some, List, [], ◌∷◌, String, string_eq, string_dec, ◌==◌,
  if◌then◌else◌, Map,
}
use multi_market_prices.Constants.Messages.{MessageType, message_type_text}
use multi_market_prices.Constants.Settings.{ConfigTag, config_tag_text}
use multi_market_prices.Constants.Tags.{Tags, tags_text}
use multi_market_prices.Binance.{BinanceConfigTag, binance_config_tag_text}
use multi_market_prices.Programs.{
  Value, text, number, Configuration, Launch, Start, launched, and_then, broker_props,
}
use multi_market_prices.Programs.Mock.{extra_props, override}

-- `getHeartBeatMsg` and `getDescMsg`, of the globals that `PlatformComm::init` has assigned.
abbrev pub heart_beat_msg : String → String → List (String × Value)
heart_beat_msg app_id app_group =
    (tags_text Tags.message_type, text (message_type_text MessageType.heart_beat))
    ∷ (tags_text Tags.heart_beat_interval, number 5)
    ∷ (tags_text Tags.heart_beat_timeout, number 30)
    ∷ (tags_text Tags.app_id, text app_id)
    ∷ (tags_text Tags.app_group, text app_group)
    ∷ []

abbrev pub desc_msg : String → String → List (String × Value)
desc_msg app_id app_group =
    (tags_text Tags.app_id, text app_id) ∷ (tags_text Tags.app_group, text app_group) ∷ []

-- What `PlatformComm::init` gives to the middleware.
unfoldable pub init :
    String → String → String → String → ℕ → String → String → Map String String → Launch
unfolding override string_dec
init brokers app_id app_group in_topic min_brokers beats registrations extra_kafka_props = record {
  app_id = app_id;
  app_group = app_group;
  description = desc_msg app_id app_group;
  heart_beat = heart_beat_msg app_id app_group;
  heartbeat_interval_sec = 5;
  producer_props = override extra_kafka_props (broker_props brokers);
  consumer_props = override extra_kafka_props (broker_props brokers);
  has_pong_callback = false;
  min_available_brokers = min_brokers;
  heartbeats_topic = beats;
  registrations_topic = registrations;
  group_topic = if in_topic == app_id then none else some in_topic;
}

-- `initMiddleware`, with the brokers that `onGatewayConnected` reads. The topics that only the
-- gateway's own state takes must be there too.
unfoldable pub init_middleware : Configuration → Start
unfolding extra_props init
init_middleware cfg = and_then (cfg.string_at (config_tag_text ConfigTag.brokers)) (λ brokers.
    and_then (cfg.string_at (config_tag_text ConfigTag.app_id)) (λ app_id.
      and_then (cfg.string_at (config_tag_text ConfigTag.group)) (λ app_group.
        and_then (cfg.string_at (config_tag_text ConfigTag.in_topic)) (λ in_topic.
          and_then cfg.middleware_params (λ params.
            and_then (cfg.int_at (config_tag_text ConfigTag.num_min_brokers)) (λ min_brokers.
              and_then (cfg.string_at (config_tag_text ConfigTag.heartbeats_topic)) (λ beats.
                and_then (cfg.string_at (config_tag_text ConfigTag.registrations_topic))
                  (λ registrations.
                    and_then (cfg.string_at (config_tag_text ConfigTag.sync_data_topic)) (λ sync.
                      and_then (cfg.string_at (config_tag_text ConfigTag.sync_data_request_topic))
                        (λ sync_request.
                          and_then (cfg.string_at (config_tag_text ConfigTag.status_topic))
                            (λ status. launched (
                              init brokers app_id app_group in_topic (min_brokers % 2 ^ 16) beats
                                registrations (extra_props params [])))))))))))))

-- `main`: whether it goes on to launch the clients, with the rate of the throttler.
pub data Outcome : Type 0 where
  prints_version prints_usage not_configured throws : Outcome
  runs : Configuration → ℕ → Outcome

unfoldable pub main : List String → (String → Option Configuration) → Outcome
unfolding string_dec
main [] init = prints_usage
main (app_id ∷ others) init = if app_id == "--version" then prints_version else elim (init app_id) [
  | none ↦ not_configured
  | some cfg ↦
      elim (cfg.int_at (binance_config_tag_text BinanceConfigTag.ws_throttle_rate_per_sec)) [
        | none ↦ throws
        | some rate ↦ runs cfg rate
      ]
]
