-- ===== src/Connectivity/History.antt =====
-- MDGateways/Binance/Binance.cpp, `ConnectivityState`: the status after a history of the connections.
use multi_market_prices.Prelude.{◌≡◌, refl, ap, Bool, true, false, List, [], ◌∷◌, arith}
use multi_market_prices.Connectivity.{
  GatewayStatus, operational, degraded, disconnected, ConnectivityState, calc_gw_status,
  on_rest_connected, on_rest_disconnected, on_ws_connected, on_ws_disconnected,
}

-- A connection comes up (true) or goes down.
pub data Change : Type 0 where
  rest ws : Bool → Change

unfoldable pub handle : Change → ConnectivityState → ConnectivityState × GatewayStatus
unfolding on_rest_connected on_rest_disconnected on_ws_connected on_ws_disconnected
handle (rest true) s = on_rest_connected s
handle (rest false) s = on_rest_disconnected s
handle (ws true) s = on_ws_connected s
handle (ws false) s = on_ws_disconnected s

-- The status that each change reports, in order.
unfoldable pub reports : List Change → ConnectivityState → List GatewayStatus
unfolding handle
reports [] s = []
reports (c ∷ cs) s = (handle c s).1 ∷ reports cs (handle c s).0

-- Whether each connection was last seen up, and how many are.
abbrev pub rest_after : Change → Bool → Bool
rest_after (rest up) before = up
rest_after (ws up) before = before

abbrev pub ws_after : Change → Bool → Bool
ws_after (rest up) before = before
ws_after (ws up) before = up

abbrev pub status_of : Bool → Bool → GatewayStatus
status_of true true = operational
status_of false false = disconnected
status_of _ _ = degraded

abbrev pub expected : List Change → Bool → Bool → List GatewayStatus
expected [] r w = []
expected (c ∷ cs) r w =
    status_of (rest_after c r) (ws_after c w) ∷ expected cs (rest_after c r) (ws_after c w)

handle_lem :
    (c : Change) (s : ConnectivityState)
    → handle c s ≡ (
      record {
        rest_connected = rest_after c s.rest_connected;
        ws_connected = ws_after c s.ws_connected;
      },
      status_of (rest_after c s.rest_connected) (ws_after c s.ws_connected),
    )
unfolding handle calc_gw_status on_rest_connected on_rest_disconnected on_ws_connected
    on_ws_disconnected
handle_lem (rest true) s = ground arith
handle_lem (rest false) s = ground arith
handle_lem (ws true) s = ground arith
handle_lem (ws false) s = ground arith

-- From any state and through any changes of the two connections, each change reports operational if
-- both connections were last seen up, disconnected if both were last seen down, and degraded otherwise.
pub reports-expected :
    (cs : List Change) (s : ConnectivityState)
    → reports cs s ≡ expected cs s.rest_connected s.ws_connected
unfolding reports
reports-expected [] s = refl
reports-expected (c ∷ cs) s =
    let next : ConnectivityState = record {
      rest_connected = rest_after c s.rest_connected;
      ws_connected = ws_after c s.ws_connected;
    } in
    rw (handle_lem c s) (
      ap (λ l. status_of (rest_after c s.rest_connected) (ws_after c s.ws_connected) ∷ l)
        (reports-expected cs next))
