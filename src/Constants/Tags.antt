-- ===== src/Constants/Tags.antt =====
-- Constants.h: the names of the members of a message, and the values of some. Each constant is a
-- value, and its text is what is sent.
use multi_market_prices.Prelude.{
  ◌≡◌, refl, some, List, [], ◌∷◌, String, string_eq, string_dec, find_by, find_by-injective,
}

pub data Tags : Type 0 where
  message_type evt heart_beat_interval heart_beat_timeout app_id app_group latest_off_set : Tags
  subscription_key symbol price quantity action subscription_type group_identifier : Tags
  destination_topic destination_topics exchange symbol_list md_gw_status status_detail : Tags

abbrev pub tags_text : Tags → String
tags_text Tags.message_type = "message_type"
tags_text Tags.evt = "evt"
tags_text Tags.heart_beat_interval = "HeartBeatInterval"
tags_text Tags.heart_beat_timeout = "HeartBeatTimeout"
tags_text Tags.app_id = "appId"
tags_text Tags.app_group = "appGroup"
tags_text Tags.latest_off_set = "latestOffSet"
tags_text Tags.subscription_key = "key"
tags_text Tags.symbol = "symbol"
tags_text Tags.price = "price"
tags_text Tags.quantity = "quantity"
tags_text Tags.action = "action"
tags_text Tags.subscription_type = "type"
tags_text Tags.group_identifier = "group"
tags_text Tags.destination_topic = "destination_topic"
tags_text Tags.destination_topics = "destination_topics"
tags_text Tags.exchange = "exchange"
tags_text Tags.symbol_list = "symbols"
tags_text Tags.md_gw_status = "md_gw_status"
tags_text Tags.status_detail = "status_detail"

abbrev pub all_tags_text : List Tags
all_tags_text =
    Tags.message_type ∷ Tags.evt ∷ Tags.heart_beat_interval ∷ Tags.heart_beat_timeout ∷ Tags.app_id
    ∷ Tags.app_group ∷ Tags.latest_off_set ∷ Tags.subscription_key ∷ Tags.symbol ∷ Tags.price
    ∷ Tags.quantity ∷ Tags.action ∷ Tags.subscription_type ∷ Tags.group_identifier
    ∷ Tags.destination_topic ∷ Tags.destination_topics ∷ Tags.exchange ∷ Tags.symbol_list
    ∷ Tags.md_gw_status ∷ Tags.status_detail ∷ []

tags_text_found : (x : Tags) → find_by tags_text (tags_text x) all_tags_text ≡ some x
unfolding string_dec
tags_text_found Tags.message_type = refl
tags_text_found Tags.evt = refl
tags_text_found Tags.heart_beat_interval = refl
tags_text_found Tags.heart_beat_timeout = refl
tags_text_found Tags.app_id = refl
tags_text_found Tags.app_group = refl
tags_text_found Tags.latest_off_set = refl
tags_text_found Tags.subscription_key = refl
tags_text_found Tags.symbol = refl
tags_text_found Tags.price = refl
tags_text_found Tags.quantity = refl
tags_text_found Tags.action = refl
tags_text_found Tags.subscription_type = refl
tags_text_found Tags.group_identifier = refl
tags_text_found Tags.destination_topic = refl
tags_text_found Tags.destination_topics = refl
tags_text_found Tags.exchange = refl
tags_text_found Tags.symbol_list = refl
tags_text_found Tags.md_gw_status = refl
tags_text_found Tags.status_detail = refl

pub tags_text_injective : (x y : Tags) → tags_text x ≡ tags_text y → x ≡ y
tags_text_injective = find_by-injective tags_text all_tags_text tags_text_found

pub data TagValues : Type 0 where
  action_subscribe action_unsubscribe subscription_type_depth subscription_type_trade : TagValues

abbrev pub tag_values_text : TagValues → String
tag_values_text TagValues.action_subscribe = "subscribe"
tag_values_text TagValues.action_unsubscribe = "unsubscribe"
tag_values_text TagValues.subscription_type_depth = "depth"
tag_values_text TagValues.subscription_type_trade = "trade"

abbrev pub all_tag_values_text : List TagValues
all_tag_values_text =
    TagValues.action_subscribe ∷ TagValues.action_unsubscribe ∷ TagValues.subscription_type_depth
    ∷ TagValues.subscription_type_trade ∷ []

tag_values_text_found :
    (x : TagValues) → find_by tag_values_text (tag_values_text x) all_tag_values_text ≡ some x
unfolding string_dec
tag_values_text_found TagValues.action_subscribe = refl
tag_values_text_found TagValues.action_unsubscribe = refl
tag_values_text_found TagValues.subscription_type_depth = refl
tag_values_text_found TagValues.subscription_type_trade = refl

pub tag_values_text_injective : (x y : TagValues) → tag_values_text x ≡ tag_values_text y → x ≡ y
tag_values_text_injective =
    find_by-injective tag_values_text all_tag_values_text tag_values_text_found
