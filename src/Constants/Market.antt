-- ===== src/Constants/Market.antt =====
-- Constants.h: prices, instruments and applications. Each constant is a value, and its text is what
-- is sent.
use multi_market_prices.Prelude.{
  ◌≡◌, refl, some, List, [], ◌∷◌, String, string_eq, string_dec, find_by, find_by-injective,
}

pub data PriceType : Type 0 where
  depth trade : PriceType

abbrev pub price_type_text : PriceType → String
price_type_text PriceType.depth = "depth"
price_type_text PriceType.trade = "trade"

abbrev pub all_price_type_text : List PriceType
all_price_type_text = PriceType.depth ∷ PriceType.trade ∷ []

price_type_text_found :
    (x : PriceType) → find_by price_type_text (price_type_text x) all_price_type_text ≡ some x
unfolding string_dec
price_type_text_found PriceType.depth = refl
price_type_text_found PriceType.trade = refl

pub price_type_text_injective : (x y : PriceType) → price_type_text x ≡ price_type_text y → x ≡ y
price_type_text_injective =
    find_by-injective price_type_text all_price_type_text price_type_text_found

pub data InstrumentType : Type 0 where
  spot future option : InstrumentType

abbrev pub instrument_type_text : InstrumentType → String
instrument_type_text InstrumentType.spot = "spot"
instrument_type_text InstrumentType.future = "future"
instrument_type_text InstrumentType.option = "option"

abbrev pub all_instrument_type_text : List InstrumentType
all_instrument_type_text = InstrumentType.spot ∷ InstrumentType.future ∷ InstrumentType.option ∷ []

instrument_type_text_found :
    (x : InstrumentType)
    → find_by instrument_type_text (instrument_type_text x) all_instrument_type_text ≡ some x
unfolding string_dec
instrument_type_text_found InstrumentType.spot = refl
instrument_type_text_found InstrumentType.future = refl
instrument_type_text_found InstrumentType.option = refl

pub instrument_type_text_injective :
    (x y : InstrumentType) → instrument_type_text x ≡ instrument_type_text y → x ≡ y
instrument_type_text_injective =
    find_by-injective instrument_type_text all_instrument_type_text instrument_type_text_found

pub data OptionType : Type 0 where
  call put : OptionType

abbrev pub option_type_text : OptionType → String
option_type_text OptionType.call = "call"
option_type_text OptionType.put = "put"

abbrev pub all_option_type_text : List OptionType
all_option_type_text = OptionType.call ∷ OptionType.put ∷ []

option_type_text_found :
    (x : OptionType) → find_by option_type_text (option_type_text x) all_option_type_text ≡ some x
unfolding string_dec
option_type_text_found OptionType.call = refl
option_type_text_found OptionType.put = refl

pub option_type_text_injective :
    (x y : OptionType) → option_type_text x ≡ option_type_text y → x ≡ y
option_type_text_injective =
    find_by-injective option_type_text all_option_type_text option_type_text_found

pub data InstrumentAttributes : Type 0 where
  instrument_type option_type : InstrumentAttributes

abbrev pub instrument_attributes_text : InstrumentAttributes → String
instrument_attributes_text InstrumentAttributes.instrument_type = "instrument_type"
instrument_attributes_text InstrumentAttributes.option_type = "option_type"

abbrev pub all_instrument_attributes_text : List InstrumentAttributes
all_instrument_attributes_text =
    InstrumentAttributes.instrument_type ∷ InstrumentAttributes.option_type ∷ []

instrument_attributes_text_found :
    (x : InstrumentAttributes)
    → find_by instrument_attributes_text
        (instrument_attributes_text x)
        all_instrument_attributes_text
      ≡ some x
unfolding string_dec
instrument_attributes_text_found InstrumentAttributes.instrument_type = refl
instrument_attributes_text_found InstrumentAttributes.option_type = refl

pub instrument_attributes_text_injective :
    (x y : InstrumentAttributes)
    → instrument_attributes_text x ≡ instrument_attributes_text y
    → x ≡ y
instrument_attributes_text_injective =
    find_by-injective instrument_attributes_text all_instrument_attributes_text
      instrument_attributes_text_found

pub data Exchanges : Type 0 where
  binance : Exchanges

abbrev pub exchanges_text : Exchanges → String
exchanges_text Exchanges.binance = "BINANCE"

abbrev pub all_exchanges_text : List Exchanges
all_exchanges_text = Exchanges.binance ∷ []

exchanges_text_found :
    (x : Exchanges) → find_by exchanges_text (exchanges_text x) all_exchanges_text ≡ some x
unfolding string_dec
exchanges_text_found Exchanges.binance = refl

pub exchanges_text_injective : (x y : Exchanges) → exchanges_text x ≡ exchanges_text y → x ≡ y
exchanges_text_injective = find_by-injective exchanges_text all_exchanges_text exchanges_text_found

pub data AppGroup : Type 0 where
  dummy data_dumper rs_router binance_md : AppGroup

abbrev pub app_group_text : AppGroup → String
app_group_text AppGroup.dummy = "dummy"
app_group_text AppGroup.data_dumper = "DataDumper"
app_group_text AppGroup.rs_router = "RSRouter"
app_group_text AppGroup.binance_md = "BinanceMD"

abbrev pub all_app_group_text : List AppGroup
all_app_group_text =
    AppGroup.dummy ∷ AppGroup.data_dumper ∷ AppGroup.rs_router ∷ AppGroup.binance_md ∷ []

app_group_text_found :
    (x : AppGroup) → find_by app_group_text (app_group_text x) all_app_group_text ≡ some x
unfolding string_dec
app_group_text_found AppGroup.dummy = refl
app_group_text_found AppGroup.data_dumper = refl
app_group_text_found AppGroup.rs_router = refl
app_group_text_found AppGroup.binance_md = refl

pub app_group_text_injective : (x y : AppGroup) → app_group_text x ≡ app_group_text y → x ≡ y
app_group_text_injective = find_by-injective app_group_text all_app_group_text app_group_text_found
