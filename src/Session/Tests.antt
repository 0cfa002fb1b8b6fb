-- ===== src/Session/Tests.antt =====
-- MDGateways/Binance/WebSockets.h: tests of the session, and its theorems at concrete inputs.
use multi_market_prices.Prelude.{
  ◌≡◌, refl, true, false, none, List, [], ◌∷◌, String, string_eq, string_dec, contains, insert,
  erase, All,
}
use multi_market_prices.Session.{Session, ErrorCode, init, push, Method}
use multi_market_prices.Session.Commands.{
  subscribe_trade_on_strand, subscribe_stream, unsubscribe_stream,
}
use multi_market_prices.Session.Errors.{ErrorOrigin, on_error}
use multi_market_prices.Session.Connection.{on_handshake, on_write}
use multi_market_prices.Session.Exchange.{
  World, Event, subscribes, unsubscribes, written, step, exec, insert_all, erase_all,
}
use multi_market_prices.Session.Sync.{Sync, AreSafe, run, run-Sync}
use multi_market_prices.Session.Races.{IsForgotten, subs_batch_races}
use multi_market_prices.Session.Lifecycle.{connected_world, connected-Sync, session_settles}
use multi_market_prices.Session.Recovery.{lose, reconnect_settles}
use multi_market_prices.Session.Stale.{IsOther, stale_unsub-lost}

program : Unit {0}
unfolding string_dec contains insert erase subscribe_stream unsubscribe_stream on_handshake on_write
    insert_all erase_all init step exec run on_error
program = tt

abbrev btc : String
btc = "btcusdt@trade"

abbrev eth : String
eth = "ethusdt@depth5"

-- One command at once, and the stream's name.
subscribe_at_once :
    (subscribe_trade_on_strand "btcusdt" (record (init 0 10) { connected = true })).1
    ≡ push (record { method = Method.subscribe; id = 1; params = btc ∷ [] }) ∷ []
unfolding program subscribe_trade_on_strand
subscribe_at_once = refl

abbrev offline : List Event
offline = subscribes btc ∷ subscribes eth ∷ unsubscribes eth ∷ []

abbrev online : List Event
online = written ∷ subscribes eth ∷ unsubscribes btc ∷ []

online_safe : AreSafe (connected_world 0 10 offline) online
unfolding program
online_safe = (tt, ((refl, refl), ((refl, refl), tt)))

session_settles_example :
    let w = run (connected_world 0 10 offline) online in
    let w' = run w (written ∷ written ∷ written ∷ []) in
    (w'.session.in_flight ≡ false)
    × (w'.session.live_subscriptions ≡ w.session.live_subscriptions)
    × (contains eth w'.server ≡ contains eth w.session.live_subscriptions)
session_settles_example = session_settles 0 10 offline online eth tt online_safe

up_world : Sync (connected_world 0 10 offline)
unfolding exec run
up_world = connected-Sync 0 10 offline [] tt tt

run-Sync_example : Sync (run (connected_world 0 10 offline) online)
run-Sync_example = run-Sync (connected_world 0 10 offline) online up_world online_safe

-- The batch of the first handshake is on its way.
abbrev batch : World
batch = connected_world 0 10 offline

batch_in_flight : batch.session.pending_subs_in_flight ≡ true
unfolding program
batch_in_flight = refl

subs_batch_races_example :
    let added = step (step batch (subscribes eth)) written in
    let dropped = step (step batch (unsubscribes btc)) written in
    (contains eth added.session.live_subscriptions ≡ true)
    × (contains eth added.server ≡ false)
    × IsForgotten added eth
    × (contains btc dropped.session.live_subscriptions ≡ false)
    × (contains btc dropped.server ≡ true)
    × IsForgotten dropped btc
unfolding program
subs_batch_races_example = subs_batch_races batch eth btc up_world batch_in_flight refl refl refl

abbrev lost : ErrorCode
lost = record { is_aborted = false; is_handshake_failed = false; is_ssl = false; is_closed = true }

abbrev trading : Session
trading = record (init 5 10) {
  connected = true;
  connected_once = true;
  live_subscriptions = btc ∷ [];
}

-- One write later the single command has been answered.
abbrev answered : List Event
answered = written ∷ subscribes eth ∷ written ∷ []

answered_safe : AreSafe batch answered
unfolding program
answered_safe = (tt, ((refl, refl), (tt, tt)))

answered_state :
    let s = (run batch answered).session in
    (s.connected_once ≡ true) × (s.in_flight_command ≡ none) × (s.pending_unsubs ≡ [])
unfolding program
answered_state = (refl, refl, refl)

reconnect_settles_example :
    let w = run batch answered in
    let w' =
      run
        (exec (on_handshake true none) (lose true lost ErrorOrigin.read w))
        (written ∷ written ∷ written ∷ []) in
    (w'.session.in_flight ≡ false)
    × (contains eth w'.server ≡ contains eth w.session.live_subscriptions)
reconnect_settles_example =
    reconnect_settles true lost ErrorOrigin.read (run batch answered) eth
      (connected-Sync 0 10 offline answered tt answered_safe) refl answered_state.0 answered_state.1
      answered_state.2

-- An unsubscription was waiting, with a subscription, when the connection was lost.
abbrev stale : World
stale = record {
  session = record (init 5 10) {
    connected = true;
    connected_once = true;
    live_subscriptions = btc ∷ [];
    pending_subs = btc ∷ [];
    pending_unsubs = eth ∷ [];
  };
  server = [];
}

-- The subscription is answered, the unsubscription is not.
stale_state :
    (contains eth stale.session.pending_subs ≡ false)
    × (contains eth stale.session.live_subscriptions ≡ false)
    × (contains eth
          (run
            (exec (on_handshake true none) (lose false lost ErrorOrigin.read stale))
            (written ∷ [])).session.pending_unsubs
        ≡ true)
unfolding program
stale_state = (refl, refl, refl)

others_only : All (IsOther eth) (unsubscribes btc ∷ written ∷ written ∷ [])
unfolding program
others_only = (refl, (tt, (tt, tt)))

stale_unsub-lost_example :
    let again =
      run (exec (on_handshake true none) (lose false lost ErrorOrigin.read stale)) (written ∷ []) in
    let w' = run (step again (subscribes eth)) (unsubscribes btc ∷ written ∷ written ∷ []) in
    (contains eth w'.session.live_subscriptions ≡ true)
    × (contains eth w'.server ≡ false)
    × (contains eth w'.session.pending_subs ≡ false)
    × (contains eth w'.session.pending_unsubs ≡ false)
unfolding init
stale_unsub-lost_example =
    stale_unsub-lost false lost ErrorOrigin.read stale eth (written ∷ [])
      (unsubscribes btc ∷ written ∷ written ∷ []) refl refl refl stale_state.0 stale_state.1
      (tt, tt) others_only stale_state.2
