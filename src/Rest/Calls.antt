-- ===== src/Rest/Calls.antt =====
-- MDGateways/Binance/RestApi.cpp, class `BinanceRestClient`: the public calls. `limit` is the text that
-- `std::to_string` makes of the number.
use Prim.Native.String
use multi_market_prices.Prelude.{
  Option, none, some, List, [], ◌∷◌, ◌++◌, String, string_eq, string_dec, ◌==◌, is_empty,
  if◌then◌else◌,
}
use multi_market_prices.Rest.{
  JsonLib, RestClient, RestEffect, answer, launch, arm_keep_alive, no_data, target,
}

-- `symbol.empty() ? "" : "symbol=" + symbol`
abbrev pub symbol_query : String → String
unfolding string_dec
symbol_query symbol = if symbol == "" then "" else String.◌++◌ "symbol=" symbol

module _ {C Obj Val : Type 0} (lib : JsonLib Obj Val) where
  -- `launch_request`
  unfoldable pub launch_request :
      String → String → Option C → RestClient C → List (RestEffect C Obj)
  unfolding target
  launch_request path query cb r =
      launch (record { target = target r path query; callback = cb }) ∷ []

  -- The calls that answer `no_data` at once when there is no connection.
  unfoldable pub when_connected :
      String → String → Option C → RestClient C → List (RestEffect C Obj)
  unfolding launch_request
  when_connected path query cb r =
      if r.connected
      then launch_request path query cb r
      else answer cb lib.empty (some no_data) ∷ []

  abbrev pub ping : Option C → RestClient C → List (RestEffect C Obj)
  unfolding launch_request
  ping cb r = launch_request "/ping" "" cb r

  abbrev pub get_server_time : Option C → RestClient C → List (RestEffect C Obj)
  unfolding launch_request
  get_server_time cb r = launch_request "/time" "" cb r

  abbrev pub get_exchange_info : Option C → RestClient C → List (RestEffect C Obj)
  unfolding launch_request
  get_exchange_info cb r = launch_request "/exchangeInfo" "" cb r

  unfoldable pub get_depth : String → String → Option C → RestClient C → List (RestEffect C Obj)
  unfolding when_connected
  get_depth symbol limit cb r =
      when_connected "/depth"
        (String.◌++◌ "symbol=" (String.◌++◌ symbol (String.◌++◌ "&limit=" limit))) cb r

  unfoldable pub get_recent_trades :
      String → String → Option C → RestClient C → List (RestEffect C Obj)
  unfolding when_connected
  get_recent_trades symbol limit cb r =
      when_connected "/trades"
        (String.◌++◌ "symbol=" (String.◌++◌ symbol (String.◌++◌ "&limit=" limit))) cb r

  abbrev pub get_ticker_price : String → Option C → RestClient C → List (RestEffect C Obj)
  unfolding when_connected
  get_ticker_price symbol cb r = when_connected "/ticker/price" (symbol_query symbol) cb r

  abbrev pub get_24hr_ticker : String → Option C → RestClient C → List (RestEffect C Obj)
  unfolding when_connected
  get_24hr_ticker symbol cb r = when_connected "/ticker/24hr" (symbol_query symbol) cb r

  abbrev pub get_klines :
      String → String → String → Option C → RestClient C → List (RestEffect C Obj)
  unfolding when_connected
  get_klines symbol interval limit cb r =
      when_connected "/klines"
        (String.◌++◌ "symbol=" (
          String.◌++◌ symbol
            (String.◌++◌ "&interval=" (String.◌++◌ interval (String.◌++◌ "&limit=" limit)))))
        cb r

  abbrev pub get_tradable_instruments : Option C → RestClient C → List (RestEffect C Obj)
  unfolding when_connected
  get_tradable_instruments cb r = when_connected "/exchangeInfo" "" cb r

  -- The keep-alive timer: a ping if nothing waits, and the timer again.
  unfoldable pub keep_alive : RestClient C → List (RestEffect C Obj)
  unfolding launch_request
  keep_alive r =
      if r.connected
      then (if is_empty r.queue then ping none r else []) ++ arm_keep_alive ∷ []
      else []
