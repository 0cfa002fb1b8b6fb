-- ===== src/Constants/Tests.antt =====
-- Constants.h: tests of the readers.
use multi_market_prices.Prelude.{◌≡◌, refl, some, to_upper, string_dec}
use multi_market_prices.Constants.Reading.{debug, str_to_log_level}

mixed_case : str_to_log_level "Debug" ≡ some debug
unfolding str_to_log_level to_upper string_dec
mixed_case = refl
