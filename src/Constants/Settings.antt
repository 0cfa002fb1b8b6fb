-- ===== src/Constants/Settings.antt =====
-- Constants.h: the names of the settings. Each constant is a value, and its text is what is sent.
use multi_market_prices.Prelude.{
  ◌≡◌, refl, some, List, [], ◌∷◌, String, string_eq, string_dec, find_by, find_by-injective,
}

pub data ConfigTag : Type 0 where
  system groups group apps app app_id in_topic brokers exchange_to_topic_mapping : ConfigTag
  routing_requests routing_subscriptions hearbeat_interval hearbeat_timeout num_max_brokers :
      ConfigTag
  num_min_brokers log_level registrations_topic heartbeats_topic status_topic : ConfigTag
  sync_data_request_topic sync_data_topic middleware_params : ConfigTag

abbrev pub config_tag_text : ConfigTag → String
config_tag_text ConfigTag.system = "system"
config_tag_text ConfigTag.groups = "groups"
config_tag_text ConfigTag.group = "group"
config_tag_text ConfigTag.apps = "apps"
config_tag_text ConfigTag.app = "app"
config_tag_text ConfigTag.app_id = "appId"
config_tag_text ConfigTag.in_topic = "in_topic"
config_tag_text ConfigTag.brokers = "brokers"
config_tag_text ConfigTag.exchange_to_topic_mapping = "exchange_to_topic_mapping"
config_tag_text ConfigTag.routing_requests = "requests"
config_tag_text ConfigTag.routing_subscriptions = "subscriptions"
config_tag_text ConfigTag.hearbeat_interval = "hearbeatInterval"
config_tag_text ConfigTag.hearbeat_timeout = "hearbeatTimeout"
config_tag_text ConfigTag.num_max_brokers = "numMaxBrokers"
config_tag_text ConfigTag.num_min_brokers = "numMinBrokers"
config_tag_text ConfigTag.log_level = "logLevel"
config_tag_text ConfigTag.registrations_topic = "registrationsTopic"
config_tag_text ConfigTag.heartbeats_topic = "heartbeatsTopic"
config_tag_text ConfigTag.status_topic = "statusTopic"
config_tag_text ConfigTag.sync_data_request_topic = "syncDataRequestTopic"
config_tag_text ConfigTag.sync_data_topic = "syncDataTopic"
config_tag_text ConfigTag.middleware_params = "middleware_params"

abbrev pub all_config_tag_text : List ConfigTag
all_config_tag_text =
    ConfigTag.system ∷ ConfigTag.groups ∷ ConfigTag.group ∷ ConfigTag.apps ∷ ConfigTag.app
    ∷ ConfigTag.app_id ∷ ConfigTag.in_topic ∷ ConfigTag.brokers
    ∷ ConfigTag.exchange_to_topic_mapping ∷ ConfigTag.routing_requests
    ∷ ConfigTag.routing_subscriptions ∷ ConfigTag.hearbeat_interval ∷ ConfigTag.hearbeat_timeout
    ∷ ConfigTag.num_max_brokers ∷ ConfigTag.num_min_brokers ∷ ConfigTag.log_level
    ∷ ConfigTag.registrations_topic ∷ ConfigTag.heartbeats_topic ∷ ConfigTag.status_topic
    ∷ ConfigTag.sync_data_request_topic ∷ ConfigTag.sync_data_topic ∷ ConfigTag.middleware_params
    ∷ []

config_tag_text_found :
    (x : ConfigTag) → find_by config_tag_text (config_tag_text x) all_config_tag_text ≡ some x
unfolding string_dec
config_tag_text_found ConfigTag.system = refl
config_tag_text_found ConfigTag.groups = refl
config_tag_text_found ConfigTag.group = refl
config_tag_text_found ConfigTag.apps = refl
config_tag_text_found ConfigTag.app = refl
config_tag_text_found ConfigTag.app_id = refl
config_tag_text_found ConfigTag.in_topic = refl
config_tag_text_found ConfigTag.brokers = refl
config_tag_text_found ConfigTag.exchange_to_topic_mapping = refl
config_tag_text_found ConfigTag.routing_requests = refl
config_tag_text_found ConfigTag.routing_subscriptions = refl
config_tag_text_found ConfigTag.hearbeat_interval = refl
config_tag_text_found ConfigTag.hearbeat_timeout = refl
config_tag_text_found ConfigTag.num_max_brokers = refl
config_tag_text_found ConfigTag.num_min_brokers = refl
config_tag_text_found ConfigTag.log_level = refl
config_tag_text_found ConfigTag.registrations_topic = refl
config_tag_text_found ConfigTag.heartbeats_topic = refl
config_tag_text_found ConfigTag.status_topic = refl
config_tag_text_found ConfigTag.sync_data_request_topic = refl
config_tag_text_found ConfigTag.sync_data_topic = refl
config_tag_text_found ConfigTag.middleware_params = refl

pub config_tag_text_injective : (x y : ConfigTag) → config_tag_text x ≡ config_tag_text y → x ≡ y
config_tag_text_injective =
    find_by-injective config_tag_text all_config_tag_text config_tag_text_found

pub data MiddlewareConfig : Type 0 where
  bootstrap_servers group_id enable_auto_commit auto_commit_interval_ms session_timeout_ms :
      MiddlewareConfig
  auto_offset_reset : MiddlewareConfig

abbrev pub middleware_config_text : MiddlewareConfig → String
middleware_config_text MiddlewareConfig.bootstrap_servers = "bootstrap.servers"
middleware_config_text MiddlewareConfig.group_id = "group.id"
middleware_config_text MiddlewareConfig.enable_auto_commit = "enable.auto.commit"
middleware_config_text MiddlewareConfig.auto_commit_interval_ms = "auto.commit.interval.ms"
middleware_config_text MiddlewareConfig.session_timeout_ms = "session.timeout.ms"
middleware_config_text MiddlewareConfig.auto_offset_reset = "auto.offset.reset"

abbrev pub all_middleware_config_text : List MiddlewareConfig
all_middleware_config_text =
    MiddlewareConfig.bootstrap_servers ∷ MiddlewareConfig.group_id
    ∷ MiddlewareConfig.enable_auto_commit ∷ MiddlewareConfig.auto_commit_interval_ms
    ∷ MiddlewareConfig.session_timeout_ms ∷ MiddlewareConfig.auto_offset_reset ∷ []

middleware_config_text_found :
    (x : MiddlewareConfig)
    → find_by middleware_config_text (middleware_config_text x) all_middleware_config_text ≡ some x
unfolding string_dec
middleware_config_text_found MiddlewareConfig.bootstrap_servers = refl
middleware_config_text_found MiddlewareConfig.group_id = refl
middleware_config_text_found MiddlewareConfig.enable_auto_commit = refl
middleware_config_text_found MiddlewareConfig.auto_commit_interval_ms = refl
middleware_config_text_found MiddlewareConfig.session_timeout_ms = refl
middleware_config_text_found MiddlewareConfig.auto_offset_reset = refl

pub middleware_config_text_injective :
    (x y : MiddlewareConfig) → middleware_config_text x ≡ middleware_config_text y → x ≡ y
middleware_config_text_injective =
    find_by-injective middleware_config_text all_middleware_config_text middleware_config_text_found
