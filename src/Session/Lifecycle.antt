-- ===== src/Session/Lifecycle.antt =====
-- MDGateways/Binance/WebSockets.h, class `session`: commands before the connection, the handshake, and
-- the loss of the connection.
use multi_market_prices.Prelude.{
  ℕ, ◌≡◌, refl, true, false, ◌||◌, List, [], ◌∷◌, String, string_eq, contains, insert,
  contains-insert, contains-erase, contains-cons, contains-nil, none, arith,
}
use multi_market_prices.Session.{Session, init}
use multi_market_prices.Session.Commands.{subscribe_stream, unsubscribe_stream}
use multi_market_prices.Session.Connection.{resubscribe, on_handshake}
use multi_market_prices.Session.Exchange.{
  World, Event, subscribes, unsubscribes, written, exec, step, contains-insert_all,
}
use multi_market_prices.Session.Sync.{Sync, AreSafe, run, run-Sync}
use multi_market_prices.Session.Settling.{settles}

-- A session that is ready to connect: not connected, nothing on its way, no unsubscription waiting,
-- and nothing waiting that is not live. A new connection delivers nothing yet.
pub record IsResumable (w : World) : Type 0 where
  pub down : w.session.connected ≡ false
  pub no_command : w.session.in_flight_command ≡ none
  pub no_subs_batch : w.session.pending_subs_in_flight ≡ false
  pub no_unsubs_batch : w.session.pending_unsubs_in_flight ≡ false
  pub quiet : w.session.in_flight ≡ false
  pub no_unsubs : w.session.pending_unsubs ≡ []
  pub waiting_live :
      (x : String)
      → contains x w.session.pending_subs ≡ true
      → contains x w.session.live_subscriptions ≡ true
  pub fresh : w.server ≡ []

-- Without waiting unsubscriptions the loop of `on_handshake` only adds to the waiting subscriptions.
resubscribe_lem :
    (live : List String) (s : Session)
    → s.pending_unsubs ≡ []
    → (subs : List String) × (resubscribe live s ≡ record s { pending_subs = subs })
      × ((x : String) → contains x subs ≡ (contains x live || contains x s.pending_subs))
unfolding resubscribe
resubscribe_lem [] s e = (s.pending_subs, refl, λ x. rw (contains-nil x [] refl) refl)
resubscribe_lem (y ∷ live) s e =
    let s' = record s { pending_subs = insert y s.pending_subs } in
    let (subs, path, has) = resubscribe_lem live s' e in
    (
      subs,
      rw (contains-nil y s.pending_unsubs e) path,
      λ x. ground (arith, has x, contains-cons x y live, contains-insert y x s.pending_subs),
    )

abbrev up : Session → List String → Session
up s subs = record s { connected = true; connected_once = true; pending_subs = subs }

module _ (w : World) (v : IsResumable w) where
  handshake-subs :
      (subs : List String)
      → resubscribe w.session.live_subscriptions
          (record w.session { connected = true; connected_once = true })
        ≡ up w.session subs
      → ((x : String) → contains x subs ≡ contains x w.session.live_subscriptions)
      → Sync (exec (on_handshake true none) w)
  unfolding exec on_handshake contains
  handshake-subs subs e has =
      rw (e, exec)
        (record {
          phase = ground arith;
          tracks = λ x. ground (arith, has x, contains-insert_all x subs w.server);
        })

  pub handshake-Sync : Sync (exec (on_handshake true none) w)
  handshake-Sync =
      let (subs, path, has) =
        resubscribe_lem w.session.live_subscriptions
          (record w.session { connected = true; connected_once = true }) v.no_unsubs in
      handshake-subs subs path (λ x. ground (arith, has x, v.waiting_live x))

-- Commands alone, with no write among them.
abbrev pub AreCommands : List Event → Type 0
AreCommands [] = Unit
AreCommands (written ∷ es) = ⊥
AreCommands (_ ∷ es) = AreCommands es

-- Before its first connection the waiting subscriptions are the live streams.
pub record IsOffline (w : World) : Type 0 where
  pub resumable : IsResumable w
  pub all_wait :
      (x : String) → contains x w.session.live_subscriptions ≡ contains x w.session.pending_subs

module _ (w : World) (y : String) (v : IsOffline w) where
  IsOffline-subscribes : IsOffline (step w (subscribes y))
  unfolding step exec subscribe_stream
  IsOffline-subscribes = record {
    resumable = record {
      down = ground (arith, v.resumable);
      no_command = ground (arith, v.resumable);
      no_subs_batch = ground (arith, v.resumable);
      no_unsubs_batch = ground (arith, v.resumable);
      quiet = ground (arith, v.resumable);
      no_unsubs = ground (arith, v.resumable, contains-nil y w.session.pending_unsubs);
      waiting_live = λ x. ground (
        arith,
        v.resumable,
        v.all_wait x,
        contains-nil y w.session.pending_unsubs,
        contains-insert y x w.session.live_subscriptions,
        contains-insert y x w.session.pending_subs,
      );
      fresh = ground (arith, v.resumable);
    };
    all_wait = λ x. ground (
      arith,
      v.resumable,
      v.all_wait x,
      contains-nil y w.session.pending_unsubs,
      contains-insert y x w.session.live_subscriptions,
      contains-insert y x w.session.pending_subs,
    );
  }

  IsOffline-unsubscribes : IsOffline (step w (unsubscribes y))
  unfolding step exec unsubscribe_stream
  IsOffline-unsubscribes = record {
    resumable = record {
      down = ground (arith, v.resumable);
      no_command = ground (arith, v.resumable);
      no_subs_batch = ground (arith, v.resumable);
      no_unsubs_batch = ground (arith, v.resumable);
      quiet = ground (arith, v.resumable);
      no_unsubs = ground (arith, v.resumable, v.all_wait y);
      waiting_live = λ x. ground (
        arith,
        v.resumable,
        v.all_wait x,
        v.all_wait y,
        contains-erase y x w.session.live_subscriptions,
        contains-erase y x w.session.pending_subs,
      );
      fresh = ground (arith, v.resumable);
    };
    all_wait = λ x. ground (
      arith,
      v.resumable,
      v.all_wait x,
      v.all_wait y,
      contains-erase y x w.session.live_subscriptions,
      contains-erase y x w.session.pending_subs,
    );
  }

run-IsOffline : (w : World) (es : List Event) → AreCommands es → IsOffline w → IsOffline (run w es)
unfolding run
run-IsOffline w [] c v = v
run-IsOffline w (subscribes y ∷ es) c v =
    run-IsOffline (step w (subscribes y)) es c (IsOffline-subscribes w y v)
run-IsOffline w (unsubscribes y ∷ es) c v =
    run-IsOffline (step w (unsubscribes y)) es c (IsOffline-unsubscribes w y v)
run-IsOffline w (written ∷ es) c v = absurd c

-- A new session, and no connection.
abbrev pub start : ℕ → ℕ → World
start msg_no delay = record { session = init msg_no delay; server = [] }

start-IsOffline : (msg_no delay : ℕ) → IsOffline (start msg_no delay)
unfolding init
start-IsOffline msg_no delay = record {
  resumable = record {
    down = refl;
    no_command = refl;
    no_subs_batch = refl;
    no_unsubs_batch = refl;
    quiet = refl;
    no_unsubs = refl;
    waiting_live = λ x h. h;
    fresh = refl;
  };
  all_wait = λ x. refl;
}

-- The world after the commands that come before the first connection, and the handshake.
abbrev pub connected_world : ℕ → ℕ → List Event → World
connected_world msg_no delay offline =
    exec (on_handshake true none) (run (start msg_no delay) offline)

pub connected-Sync :
    (msg_no delay : ℕ) (offline es : List Event)
    → AreCommands offline
    → AreSafe (connected_world msg_no delay offline) es
    → Sync (run (connected_world msg_no delay offline) es)
connected-Sync msg_no delay offline es c safe =
    let o = run-IsOffline (start msg_no delay) offline c (start-IsOffline msg_no delay) in
    let v = handshake-Sync (run (start msg_no delay) offline) o.resumable in
    run-Sync (connected_world msg_no delay offline) es v safe

-- From a new session: whatever is subscribed and unsubscribed before the connection is up and, as long
-- as no command touches a batch on its way, after it, three answered writes after the last command
-- nothing is on its way and the exchange delivers exactly the live streams.
pub session_settles :
    (msg_no delay : ℕ) (offline es : List Event) (x : String)
    → AreCommands offline
    → AreSafe (connected_world msg_no delay offline) es
    → let w = run (connected_world msg_no delay offline) es in
      let w' = run w (written ∷ written ∷ written ∷ []) in
      (w'.session.in_flight ≡ false)
      × (w'.session.live_subscriptions ≡ w.session.live_subscriptions)
      × (contains x w'.server ≡ contains x w.session.live_subscriptions)
session_settles msg_no delay offline es x c safe =
    settles _ x (connected-Sync msg_no delay offline es c safe)
