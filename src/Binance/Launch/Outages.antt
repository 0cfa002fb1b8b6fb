-- ===== src/Binance/Launch/Outages.antt =====
-- MDGateways/Binance/Binance.cpp: what the gateway does when the ready callbacks of its connections are
-- called. `BinanceRestClient` calls its own with an error before its first connection only.
use multi_market_prices.Prelude.{◌≡◌, Bool, true, not, List, [], ◌∷◌, ◌++◌, String, string_eq}
use multi_market_prices.Connectivity.{GatewayStatus}
use multi_market_prices.Connectivity.History
use multi_market_prices.Binance.Launch.{Gateway, GatewayEffect, publish, blank_all, on_rest, on_ws}

-- A call of the ready callback of one of the two connections, with whether there is an error.
pub data Event : Type 0 where
  rest ws : Bool → Event

unfoldable pub step : Event → Gateway → Gateway × List GatewayEffect
unfolding on_rest on_ws
step (rest ec) g = on_rest ec g
step (ws ec) g = on_ws ec g

unfoldable pub run : List Event → Gateway → List GatewayEffect
unfolding step
run [] g = []
run (e ∷ es) g = let rest = run es (step e g).0 in (step e g).1 ++ rest

abbrev pub statuses : List GatewayEffect → List GatewayStatus
statuses [] = []
statuses (publish s message ∷ es) = s ∷ statuses es
statuses (_ ∷ es) = statuses es

abbrev pub others : List GatewayEffect → List GatewayEffect
others [] = []
others (publish s message ∷ es) = others es
others (e ∷ es) = e ∷ others es

abbrev IsUp : Gateway → Type 0
IsUp g = (g.rest_connected_once ≡ true) × (g.ws_connected_once ≡ true)

-- What a call does to the connectivity, and what it makes the gateway do.
abbrev change_of : Event → History.Change
change_of (rest ec) = History.rest (not ec)
change_of (ws ec) = History.ws (not ec)

abbrev reason : Event → String
reason (rest true) = "REST disconnected"
reason (ws true) = "WebSocket disconnected"
reason _ = ""

abbrev blanking : Event → List GatewayEffect
blanking (ws true) = blank_all ∷ []
blanking _ = []

abbrev pub changes : List Event → List History.Change
changes [] = []
changes (e ∷ es) = change_of e ∷ changes es

-- One blanking for each error of the websocket.
abbrev pub blankings : List Event → List GatewayEffect
blankings [] = []
blankings (e ∷ es) = blanking e ++ blankings es
