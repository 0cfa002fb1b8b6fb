-- ===== src/Binance/Launch.antt =====
-- MDGateways/Binance/Binance.cpp: how the gateway comes up and what it does when a connection is
-- lost: the callbacks of `launchRestClient` and `launchWebSocketClient`, whose static flags are
-- fields here.
pub mod Outages
use multi_market_prices.Prelude.{
  ℕ, ◌+◌, Bool, true, false, not, Option, none, some, List, [], ◌∷◌, ◌++◌, String, string_eq,
  if◌then◌else◌, Map, lookup, assign,
}
use multi_market_prices.Connectivity.{
  GatewayStatus, ConnectivityState, not_connected, calc_gw_status, on_rest_connected,
  on_rest_disconnected, on_ws_connected, on_ws_disconnected,
}
use multi_market_prices.Binance.{Json, Object, BinanceTag, binance_tag_text, and_then}

pub record Gateway : Type 0 where
  pub rest_connected_once : Bool
  pub ws_connected_once : Bool
  pub connectivity : ConnectivityState
  pub symbol_store : Map String String

abbrev pub new_gateway : Gateway
new_gateway = record {
  rest_connected_once = false;
  ws_connected_once = false;
  connectivity = not_connected;
  symbol_store = [];
}

pub data GatewayEffect : Type 0 where
  -- `publishStatusPtr`: the status and a message.
  publish : GatewayStatus → String → GatewayEffect
  -- `produceUpdate` of a `PriceBlanking` for every key.
  blank_all : GatewayEffect
  get_tradable_instruments launch_web_socket start_platform_comm : GatewayEffect
  stop_io stop_session stop_rest : GatewayEffect

-- The callback of the REST client, with whether there is an error.
unfoldable pub on_rest : Bool → Gateway → Gateway × List GatewayEffect
unfolding on_rest_connected on_rest_disconnected
on_rest ec g =
    let up = on_rest_connected g.connectivity in
    let down = on_rest_disconnected g.connectivity in
    if ec
    then if not g.rest_connected_once
      then (g, stop_io ∷ [])
      else (record g { connectivity = down.0 }, publish down.1 "REST disconnected" ∷ [])
    else if g.rest_connected_once
    then (record g { connectivity = up.0 }, publish up.1 "" ∷ [])
    else (
      record g { rest_connected_once = true; connectivity = up.0 },
      publish up.1 "" ∷ get_tradable_instruments ∷ [],
    )

-- The callback of the session.
unfoldable pub on_ws : Bool → Gateway → Gateway × List GatewayEffect
unfolding on_ws_connected on_ws_disconnected
on_ws ec g =
    let up = on_ws_connected g.connectivity in
    let down = on_ws_disconnected g.connectivity in
    if ec
    then if not g.ws_connected_once then (g, stop_rest ∷ stop_io ∷ []) else (
      record g { connectivity = down.0 },
      blank_all ∷ publish down.1 "WebSocket disconnected" ∷ [],
    )
    else if g.ws_connected_once
    then (record g { connectivity = up.0 }, publish up.1 "" ∷ [])
    else (
      record g { ws_connected_once = true; connectivity = up.0 },
      publish up.1 "" ∷ start_platform_comm ∷ [],
    )

-- The callback that the platform's communication calls when it is ready. The earlier calls of
-- `publishStatusPtr` are of a function that does nothing.
unfoldable pub on_ready : Gateway → List GatewayEffect
unfolding calc_gw_status
on_ready g = publish (calc_gw_status g.connectivity) "" ∷ []

-- The exit callback that the platform's communication gets.
abbrev pub on_exit : List GatewayEffect
on_exit = stop_io ∷ stop_session ∷ stop_rest ∷ []

-- `symbolStore[id] = json::serialize(symbol)` for each symbol.
unfoldable pub store_symbols :
    {V : Type 0} → Json V → (V → String) → List V → Map String String → Option (Map String String)
store_symbols json serialize [] store = some store
store_symbols json serialize (symbol ∷ symbols) store =
    let id =
      and_then
        (and_then (json.as_object symbol) (lookup (binance_tag_text BinanceTag.symbol_restapi)))
        json.as_string in
    and_then id (λ s. store_symbols json serialize symbols (assign s (serialize symbol) store))

-- The callback of `getTradableInstruments`: `none` is an exception.
unfoldable pub on_instruments :
    {V : Type 0}
    → Json V
    → (V → String)
    → Object V
    → Bool
    → Gateway
    → Option (Gateway × List GatewayEffect)
unfolding store_symbols
on_instruments json serialize obj ec g =
    if ec
    then some (g, stop_io ∷ [])
    else and_then (and_then (lookup (binance_tag_text BinanceTag.symbol_list) obj) json.as_array)
        (λ symbols.
          and_then (store_symbols json serialize symbols g.symbol_store)
            (λ store. some (record g { symbol_store = store }, launch_web_socket ∷ [])))
