-- ===== src/Programs/Benchmark.antt =====
-- PerformanceTests/BinanceMD/BinanceMDPerformanceTests.cpp: subscribes to the prices of five
-- symbols, counts what comes, and unsubscribes.
pub mod Counting
pub mod Words
pub mod Handling
pub mod Leaving
mod Tests
use multi_market_prices.Prelude.{
  ℕ, suc, ◌+◌, ◌<◌, ◌^◌, ◌%◌, ◌≡◌, refl, Bool, true, false, Option, none, some, List, [], ◌∷◌, ◌++◌,
  get_or, String, string_eq, string_dec, ◌==◌, if◌then◌else◌,
}
use multi_market_prices.Constants.Market.{PriceType, price_type_text}
use multi_market_prices.Constants.Messages.{MessageType, message_type_text}
use multi_market_prices.Constants.Settings.{ConfigTag, config_tag_text}
use multi_market_prices.Constants.Tags.{Tags, tags_text}
use multi_market_prices.Middleware.{Message, MiddlewareEffect, produce}
use multi_market_prices.Programs.{
  Json, Value, text, number, Configuration, Launch, Start, failed, thrown, launched, and_then,
  broker_props,
}

-- The counters, of 64 bits.
pub record Counters : Type 0 where
  pub num_trade_updates_recd : ℕ
  pub num_depth_updates_recd : ℕ
  pub num_other_messages_recd : ℕ

abbrev pub no_messages : Counters
no_messages = record {
  num_trade_updates_recd = 0;
  num_depth_updates_recd = 0;
  num_other_messages_recd = 0;
}

-- `msgCb`
unfoldable pub msg_cb : Message → Counters → Counters
unfolding string_dec
msg_cb m c =
    if m.msg_type == message_type_text MessageType.trade_update
    then record c { num_trade_updates_recd = (c.num_trade_updates_recd + 1) % 2 ^ 64 }
    else if m.msg_type == message_type_text MessageType.depth_update
    then record c { num_depth_updates_recd = (c.num_depth_updates_recd + 1) % 2 ^ 64 }
    else record c { num_other_messages_recd = (c.num_other_messages_recd + 1) % 2 ^ 64 }

unfoldable pub receive_each : List Message → Counters → Counters
unfolding msg_cb
receive_each [] c = c
receive_each (m ∷ ms) c = receive_each ms (msg_cb m c)

abbrev pub symbols : List String
symbols = "BTCUSDT" ∷ "ETHUSDT" ∷ "XRPUSDT" ∷ "SOLUSDT" ∷ "BNBUSDT" ∷ []

-- The texts that a subscription, or an unsubscription, has as its type and as its action.
abbrev pub message_type_of : Bool → String
message_type_of true = message_type_text MessageType.subscribe
message_type_of false = message_type_text MessageType.unsubscribe

abbrev pub action_of : Bool → String
action_of true = "subscribe"
action_of false = "unsubscribe"

abbrev pub fields_of : String → PriceType → Bool → String → List (String × String)
fields_of app_id price_type is_sub symbol =
    (tags_text Tags.action, action_of is_sub)
    ∷ (tags_text Tags.destination_topic, app_id)
    ∷ (tags_text Tags.symbol, symbol)
    ∷ (tags_text Tags.subscription_type, price_type_text price_type)
    ∷ []

module _ {Obj : Type 0} (json : Json Obj) (out_topic app_id : String) where
  -- The loop of `sendSubUnsubs`.
  unfoldable pub send_each : PriceType → Bool → List String → List MiddlewareEffect
  unfolding produce
  send_each price_type is_sub [] = []
  send_each price_type is_sub (symbol ∷ more) =
      (produce out_topic (message_type_of is_sub) symbol
        (json.serialize (fields_of app_id price_type is_sub symbol)) []).1
      ++ send_each price_type is_sub more

  unfoldable pub send_sub_unsubs : PriceType → Bool → List MiddlewareEffect
  unfolding send_each
  send_sub_unsubs price_type is_sub = send_each price_type is_sub symbols

  -- `startPerformanceTest`: what is sent before the thirty seconds, and after them.
  unfoldable pub start_performance_test : List MiddlewareEffect × List MiddlewareEffect
  unfolding send_sub_unsubs
  start_performance_test = (
    send_sub_unsubs PriceType.trade true ++ send_sub_unsubs PriceType.depth true,
    send_sub_unsubs PriceType.trade false ++ send_sub_unsubs PriceType.depth false,
  )

-- `main`: the argument, if there is one, and what `Config::init` returns for the id.
unfoldable pub main : Option String → (String → Option Configuration) → Start
main argument init =
    let app_id = get_or argument "Binance_PT_1" in
    elim (init app_id) [
      | none ↦ failed
      | some cfg ↦ and_then (cfg.string_at (config_tag_text ConfigTag.group)) (λ app_group.
          and_then (cfg.int_at (config_tag_text ConfigTag.hearbeat_interval)) (λ interval.
            and_then (cfg.int_at (config_tag_text ConfigTag.hearbeat_timeout)) (λ timeout.
              and_then (cfg.string_at "out_topic") (λ out_topic.
                and_then (cfg.string_at (config_tag_text ConfigTag.brokers)) (λ brokers.
                  and_then (cfg.int_at (config_tag_text ConfigTag.num_min_brokers)) (λ min_brokers.
                    and_then (cfg.string_at (config_tag_text ConfigTag.heartbeats_topic)) (λ beats.
                      and_then (cfg.string_at (config_tag_text ConfigTag.registrations_topic))
                        (λ registrations. launched (record {
                          app_id = app_id;
                          app_group = app_group;
                          description =
                              (tags_text Tags.app_id, text app_id)
                              ∷ (tags_text Tags.app_group, text app_group)
                              ∷ [];
                          heart_beat =
                              (
                                tags_text Tags.message_type,
                                text (message_type_text MessageType.heart_beat),
                              )
                              ∷ (tags_text Tags.heart_beat_interval, number interval)
                              ∷ (tags_text Tags.heart_beat_timeout, number timeout)
                              ∷ (tags_text Tags.app_id, text app_id)
                              ∷ (tags_text Tags.app_group, text app_group)
                              ∷ [];
                          heartbeat_interval_sec = interval;
                          producer_props = broker_props brokers;
                          consumer_props = broker_props brokers;
                          has_pong_callback = false;
                          min_available_brokers = min_brokers % 2 ^ 16;
                          heartbeats_topic = beats;
                          registrations_topic = registrations;
                          group_topic = none;
                        })))))))))
    ]
