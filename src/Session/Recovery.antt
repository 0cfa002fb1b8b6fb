-- ===== src/Session/Recovery.antt =====
-- MDGateways/Binance/WebSockets.h, class `session`: errors, the loss of the connection and the next
-- one.
use multi_market_prices.Prelude.{
  ◌≡◌, ◌≢◌, refl, ap, ◌∙◌, Bool, true, false, not, ◌&&◌, ◌||◌, List, [], ◌∷◌, String, string_eq,
  contains, insert, erase, contains-insert, contains-erase, contains-cons, if◌then◌else◌, none,
  some, arith,
}
use multi_market_prices.Session.{ErrorCode, Session, Effect, ready, cancel_timer, arm_timer}
use multi_market_prices.Session.Errors.{ErrorAction, ErrorOrigin, classify_error, on_error}
use multi_market_prices.Session.Connection.{resubscribe, resend, on_handshake}
use multi_market_prices.Session.Exchange.{World, written, exec}
use multi_market_prices.Session.Sync.{Sync, run}
use multi_market_prices.Session.Settling.{settles}
use multi_market_prices.Session.Lifecycle.{IsResumable, handshake-Sync}

-- The state that a reconnection starts from.
abbrev pub disconnected : Session → Session
disconnected s = record s {
  in_flight = false;
  pending_subs_in_flight = false;
  pending_unsubs_in_flight = false;
  connected = false;
}

-- The action on an error is never a retry.
classify_error-ne-retry : (s : Session) (ec : ErrorCode) → classify_error s ec ≢ ErrorAction.retry
unfolding classify_error
classify_error-ne-retry s ec = ground arith

-- An aborted operation changes nothing and is not reported. Any other error is reported to the ready
-- callback once, then the timer is cancelled and the connection closed; before the first connection a
-- failed handshake or an SSL error ends there, and in every other case the timer is armed with the
-- retry delay and only the four flags are reset. A retry never happens.
pub on_error_lem :
    (is_open : Bool) (ec : ErrorCode) (origin : ErrorOrigin) (s : Session)
    → on_error is_open ec origin s ≡ (
        if ec.is_aborted
        then (s, [])
        else if not s.connected_once && (ec.is_handshake_failed || ec.is_ssl)
        then (s, ready (some ec) ∷ cancel_timer ∷ Effect.close ∷ [])
        else (
          disconnected s,
          ready (some ec) ∷ cancel_timer ∷ Effect.close ∷ arm_timer s.retry_delay_sec ∷ [],
        ))
unfolding on_error
on_error_lem is_open ec origin s = ground arith

-- The connection is lost: the exchange delivers nothing until the next one.
abbrev pub lose : Bool → ErrorCode → ErrorOrigin → World → World
lose is_open ec origin w = record {
  session = (on_error is_open ec origin w.session).0;
  server = [];
}

pub lose_lem :
    (is_open : Bool) (ec : ErrorCode) (origin : ErrorOrigin) (w : World)
    → ec.is_aborted ≡ false
    → w.session.connected_once ≡ true
    → lose is_open ec origin w ≡ record { session = disconnected w.session; server = [] }
lose_lem is_open ec origin w a o = ground (arith, on_error_lem is_open ec origin w.session)

disconnected-IsResumable :
    (w : World)
    → Sync w
    → w.session.in_flight_command ≡ none
    → w.session.pending_unsubs ≡ []
    → IsResumable (record { session = disconnected w.session; server = [] })
disconnected-IsResumable w v c u = record {
  down = refl;
  no_command = c;
  no_subs_batch = refl;
  no_unsubs_batch = refl;
  quiet = refl;
  no_unsubs = u;
  waiting_live = λ x h. ground (arith, v.tracks x);
  fresh = refl;
}

-- The loop of `on_handshake` moves streams between the two waiting sets only, and only live ones.
pub record IsKept (s t : Session) (live : List String) : Type 0 where
  pub in_flight : t.in_flight ≡ s.in_flight
  pub subs_batch : t.pending_subs_in_flight ≡ s.pending_subs_in_flight
  pub unsubs_batch : t.pending_unsubs_in_flight ≡ s.pending_unsubs_in_flight
  pub command : t.in_flight_command ≡ s.in_flight_command
  pub up : t.connected ≡ s.connected
  pub all_live : t.live_subscriptions ≡ s.live_subscriptions
  pub others :
      (x : String)
      → contains x live ≡ false
      → (contains x t.pending_subs ≡ contains x s.pending_subs)
        × (contains x t.pending_unsubs ≡ contains x s.pending_unsubs)

moved : Session → String → Session
moved s y =
    if contains y s.pending_unsubs
    then record s { pending_unsubs = erase y s.pending_unsubs }
    else record s { pending_subs = insert y s.pending_subs }

resubscribe-cons :
    (s : Session) (y : String) (live : List String)
    → resubscribe (y ∷ live) s ≡ resubscribe live (moved s y)
unfolding resubscribe moved
resubscribe-cons s y live = ground arith

moved-IsKept : (s : Session) (y : String) (live : List String) → IsKept s (moved s y) (y ∷ live)
unfolding moved
moved-IsKept s y live = record {
  in_flight = ground arith;
  subs_batch = ground arith;
  unsubs_batch = ground arith;
  command = ground arith;
  up = ground arith;
  all_live = ground arith;
  others = λ x h. ground (
    arith,
    contains-cons x y live,
    contains-insert y x s.pending_subs,
    contains-erase y x s.pending_unsubs,
  );
}

pub resubscribe-IsKept : (live : List String) (s : Session) → IsKept s (resubscribe live s) live
unfolding resubscribe
resubscribe-IsKept [] s = record {
  in_flight = refl;
  subs_batch = refl;
  unsubs_batch = refl;
  command = refl;
  up = refl;
  all_live = refl;
  others = λ x h. (refl, refl);
}
resubscribe-IsKept (y ∷ live) s =
    let t = resubscribe live (moved s y) in
    let r = resubscribe-IsKept live (moved s y) in
    let m = moved-IsKept s y live in
    rw (resubscribe-cons s y live) (record {
      in_flight = r.in_flight ∙ m.in_flight;
      subs_batch = r.subs_batch ∙ m.subs_batch;
      unsubs_batch = r.unsubs_batch ∙ m.unsubs_batch;
      command = r.command ∙ m.command;
      up = r.up ∙ m.up;
      all_live = r.all_live ∙ m.all_live;
      others = λ x h. ground (arith, r.others x, m.others x, contains-cons x y live);
    })

-- The session as `on_handshake` finds it once it has noted the connection.
abbrev pub noted : Session → Session
noted s = resubscribe s.live_subscriptions (record s { connected = true; connected_once = true })

live-handshake :
    (is_open : Bool) (w : World)
    → (exec (on_handshake is_open none) w).session.live_subscriptions ≡ w.session.live_subscriptions
unfolding exec on_handshake resend
live-handshake is_open w =
    let k =
      resubscribe-IsKept w.session.live_subscriptions
        (record w.session { connected = true; connected_once = true }) in
    ground (arith, k.all_live)

-- When a connection in step is lost with no unsubscription waiting and no single command on its way,
-- then after the next handshake and three answered writes the exchange delivers exactly the streams
-- that were live.
pub reconnect_settles :
    (is_open : Bool) (ec : ErrorCode) (origin : ErrorOrigin) (w : World) (x : String)
    → Sync w
    → ec.is_aborted ≡ false
    → w.session.connected_once ≡ true
    → w.session.in_flight_command ≡ none
    → w.session.pending_unsubs ≡ []
    → let w' =
        run
          (exec (on_handshake true none) (lose is_open ec origin w))
          (written ∷ written ∷ written ∷ []) in
      (w'.session.in_flight ≡ false)
      × (contains x w'.server ≡ contains x w.session.live_subscriptions)
reconnect_settles is_open ec origin w x v a o c u = rw (lose_lem is_open ec origin w a o) (
    let d : World = record { session = disconnected w.session; server = [] } in
    let (quiet, _, same) =
      settles (exec (on_handshake true none) d) x
        (handshake-Sync d (disconnected-IsResumable w v c u)) in
    (quiet, same ∙ ap (contains x) (live-handshake true d)))
