-- ===== src/Constants/Distinct.antt =====
-- Constants.h: constants of one enumeration are compared and hashed by their text.
use multi_market_prices.Prelude.{◌≡◌}
use multi_market_prices.Constants.Messages.{
  MessageType, message_type_text, message_type_text_injective, HeaderKey, header_key_text,
  header_key_text_injective,
}
use multi_market_prices.Constants.Tags.{Tags, tags_text, tags_text_injective}
use multi_market_prices.Constants.Settings.{
  ConfigTag, config_tag_text, config_tag_text_injective, MiddlewareConfig, middleware_config_text,
  middleware_config_text_injective,
}

-- Two constants of the message types, of the header keys, of the tags, of the settings or of the
-- middleware's settings are the same constant when their texts are equal.
pub texts_distinct :
    ((x y : MessageType) → message_type_text x ≡ message_type_text y → x ≡ y)
    × ((x y : HeaderKey) → header_key_text x ≡ header_key_text y → x ≡ y)
    × ((x y : Tags) → tags_text x ≡ tags_text y → x ≡ y)
    × ((x y : ConfigTag) → config_tag_text x ≡ config_tag_text y → x ≡ y)
    × ((x y : MiddlewareConfig) → middleware_config_text x ≡ middleware_config_text y → x ≡ y)
texts_distinct = (
  message_type_text_injective, header_key_text_injective, tags_text_injective,
  config_tag_text_injective, middleware_config_text_injective,
)
