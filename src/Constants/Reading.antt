-- ===== src/Constants/Reading.antt =====
-- Constants.h: reading the level of logging and the type of a price.
use multi_market_prices.Prelude.{
  ◌≡◌, ◌↔◌, inl, inr, Bool-cases, eq_of_==, arith, refl, ◌∙◌, Option, none, some, String, string_eq,
  string_dec, ◌==◌, if◌then◌else◌, to_upper, to_lower, to_upper-to_lower,
}
use multi_market_prices.Constants.Tags.{TagValues, tag_values_text}
use multi_market_prices.Constants.Market.{PriceType, price_type_text}

pub data LoggingLevel : Type 0 where
  error warning info debug : LoggingLevel

unfoldable level_of : String → Option LoggingLevel
unfolding string_dec
level_of uppered =
    if uppered == "ERROR"
    then some error
    else if uppered == "WARNING"
    then some warning
    else if uppered == "INFO"
    then some info
    else if uppered == "DEBUG"
    then some debug
    else none

unfoldable pub str_to_log_level : String → Option LoggingLevel
unfolding level_of to_upper
str_to_log_level log_level = level_of (to_upper log_level)

-- The text of a level in the configuration.
abbrev pub level_text : LoggingLevel → String
level_text error = "ERROR"
level_text warning = "WARNING"
level_text info = "INFO"
level_text debug = "DEBUG"

-- `strToPriceType`
unfoldable pub str_to_price_type : String → Option PriceType
unfolding string_dec
str_to_price_type price_type =
    if price_type == tag_values_text TagValues.subscription_type_depth
    then some PriceType.depth
    else if price_type == tag_values_text TagValues.subscription_type_trade
    then some PriceType.trade
    else none

-- A level of logging is read back from its text, and from any text with the same upper-case letters, as
-- the text in lower case.
str_to_log_level-level_text :
    (l : LoggingLevel) (s : String)
    → to_upper s ≡ level_text l
    → (str_to_log_level s ≡ some l) × (str_to_log_level (to_lower s) ≡ some l)
unfolding str_to_log_level level_of string_dec
str_to_log_level-level_text error s e = (rw e refl, rw (to_upper-to_lower s, e) refl)
str_to_log_level-level_text warning s e = (rw e refl, rw (to_upper-to_lower s, e) refl)
str_to_log_level-level_text info s e = (rw e refl, rw (to_upper-to_lower s, e) refl)
str_to_log_level-level_text debug s e = (rw e refl, rw (to_upper-to_lower s, e) refl)

read_back : (p : PriceType) → str_to_price_type (price_type_text p) ≡ some p
unfolding str_to_price_type string_dec
read_back PriceType.depth = refl
read_back PriceType.trade = refl

-- The type of a price is read back from its text, and what is read from a text has that text.
pub str_to_price_type_iff :
    (s : String) (p : PriceType) → (str_to_price_type s ≡ some p) ↔ (s ≡ price_type_text p)
unfolding str_to_price_type string_dec
str_to_price_type_iff s p = (
  λ e. elim (Bool-cases (s == "depth")) [
    | inl d ↦ eq_of_== s "depth" d ∙ ground (arith, e, d)
    | inr d ↦ elim (Bool-cases (s == "trade")) [
      | inl t ↦ eq_of_== s "trade" t ∙ ground (arith, e, d, t)
      | inr t ↦ absurd (ground (arith, e, d, t))
    ]
  ],
  λ e. rw e (read_back p),
)
