-- ===== src/Session/Settling.antt =====
-- MDGateways/Binance/WebSockets.h, class `session`: how many writes it takes until nothing is on its
-- way.
use multi_market_prices.Prelude.{
  ℕ, ◌+◌, ◌-◌, ◌≤◌, ◌≡◌, refl, ◌∙◌, false, ◌||◌, [], ◌∷◌, String, string_eq, contains,
  if◌then◌else◌, is_empty, arith,
}
use multi_market_prices.Session.{Session}
use multi_market_prices.Session.Connection.{on_write}
use multi_market_prices.Session.Exchange.{World, written, exec, step}
use multi_market_prices.Session.Sync.{InPhase, Sync, step-Sync, run, Sync-idle}

-- The writes that are still to be answered if no further command comes.
rounds : Session → ℕ
rounds s =
    if s.in_flight
    then 1
      + ((if s.pending_subs_in_flight || is_empty s.pending_subs then 0 else 1)
          + (if s.pending_unsubs_in_flight || is_empty s.pending_unsubs then 0 else 1))
    else 0

rounds-le : (s : Session) → rounds s ≤ 3
unfolding rounds
rounds-le s = ground arith

rounds-written :
    (w : World) → InPhase w.session → rounds (step w written).session ≡ rounds w.session - 1
unfolding rounds step exec on_write
rounds-written w p = ground arith

live-written :
    (w : World) → (step w written).session.live_subscriptions ≡ w.session.live_subscriptions
unfolding step exec on_write
live-written w = ground arith

in_flight-rounds : (s : Session) → rounds s ≡ 0 → s.in_flight ≡ false
unfolding rounds
in_flight-rounds s h = ground arith

-- From any world in step, three answered writes later nothing is on its way, the live streams are
-- what they were, and the exchange delivers exactly those.
pub settles :
    (w : World) (x : String)
    → Sync w
    → let w' = run w (written ∷ written ∷ written ∷ []) in
      (w'.session.in_flight ≡ false)
      × (w'.session.live_subscriptions ≡ w.session.live_subscriptions)
      × (contains x w'.server ≡ contains x w.session.live_subscriptions)
unfolding run
settles w x v =
    let w1 = step w written in
    let w2 = step w1 written in
    let w3 = step w2 written in
    let v1 = step-Sync w written v tt in
    let v2 = step-Sync w1 written v1 tt in
    let v3 = step-Sync w2 written v2 tt in
    let live : w3.session.live_subscriptions ≡ w.session.live_subscriptions =
      live-written w2 ∙ live-written w1 ∙ live-written w in
    let idle : w3.session.in_flight ≡ false = in_flight-rounds w3.session (
      omega (
        arith,
        rounds-le w.session,
        rounds-written w v.phase,
        rounds-written w1 v1.phase,
        rounds-written w2 v2.phase,
      )) in
    (idle, live, Sync-idle w3 x v3 idle ∙ (rw live refl))
