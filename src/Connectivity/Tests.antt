-- ===== src/Connectivity/Tests.antt =====
-- MDGateways/Binance/Binance.cpp, `ConnectivityState`: a test.
use multi_market_prices.Prelude.{◌≡◌, refl, true, false, List, [], ◌∷◌}
use multi_market_prices.Connectivity.{not_connected, operational, degraded, calc_gw_status}
use multi_market_prices.Connectivity.History.{Change, rest, ws, handle, reports}

abbrev changes : List Change
changes = rest true ∷ ws true ∷ rest false ∷ []

three_reports : reports changes not_connected ≡ degraded ∷ operational ∷ degraded ∷ []
unfolding reports handle calc_gw_status
three_reports = refl
