-- ===== src/Connectivity.antt =====
-- MDGateways/Binance/Binance.cpp, `ConnectivityState`: the status of the gateway from its two
-- connections.
pub mod History
mod Tests
use multi_market_prices.Prelude.{Bool, true, false, ◌&&◌, ◌||◌, List, [], ◌∷◌, if◌then◌else◌}

pub data GatewayStatus : Type 0 where
  operational degraded disconnected : GatewayStatus

pub record ConnectivityState : Type 0 where
  pub rest_connected : Bool
  pub ws_connected : Bool

-- The constructor.
abbrev pub not_connected : ConnectivityState
not_connected = record { rest_connected = false; ws_connected = false }

unfoldable pub calc_gw_status : ConnectivityState → GatewayStatus
calc_gw_status s =
    if s.rest_connected && s.ws_connected
    then operational
    else if s.rest_connected || s.ws_connected
    then degraded
    else disconnected

unfoldable pub on_rest_connected : ConnectivityState → ConnectivityState × GatewayStatus
unfolding calc_gw_status
on_rest_connected s =
    (record s { rest_connected = true }, calc_gw_status (record s { rest_connected = true }))

unfoldable pub on_rest_disconnected : ConnectivityState → ConnectivityState × GatewayStatus
unfolding calc_gw_status
on_rest_disconnected s =
    (record s { rest_connected = false }, calc_gw_status (record s { rest_connected = false }))

unfoldable pub on_ws_connected : ConnectivityState → ConnectivityState × GatewayStatus
unfolding calc_gw_status
on_ws_connected s =
    (record s { ws_connected = true }, calc_gw_status (record s { ws_connected = true }))

unfoldable pub on_ws_disconnected : ConnectivityState → ConnectivityState × GatewayStatus
unfolding calc_gw_status
on_ws_disconnected s =
    (record s { ws_connected = false }, calc_gw_status (record s { ws_connected = false }))
