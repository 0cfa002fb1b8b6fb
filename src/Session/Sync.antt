-- ===== src/Session/Sync.antt =====
-- MDGateways/Binance/WebSockets.h, class `session`: the streams that are live stay those that the
-- exchange delivers.
use multi_market_prices.Prelude.{
  ◌≡◌, true, false, not, ◌&&◌, ◌||◌, List, [], ◌∷◌, String, string_eq, contains, contains-insert,
  contains-erase, is_some, arith,
}
use multi_market_prices.Session.{Session}
use multi_market_prices.Session.Commands.{subscribe_stream, unsubscribe_stream}
use multi_market_prices.Session.Connection.{on_write}
use multi_market_prices.Session.Exchange.{
  World, Event, subscribes, unsubscribes, written, exec, step, contains-insert_all,
  contains-erase_all, insert_all, erase_all,
}

-- At most one command is on its way: a single one, a batch of subscriptions or one of
-- unsubscriptions; with none on its way nothing waits.
pub record InPhase (s : Session) : Type 0 where
  pub up : s.connected ≡ true
  pub one_batch : (s.pending_subs_in_flight && s.pending_unsubs_in_flight) ≡ false
  pub no_batch :
      (is_some s.in_flight_command && (s.pending_subs_in_flight || s.pending_unsubs_in_flight))
      ≡ false
  pub busy :
      s.in_flight
      ≡ (is_some s.in_flight_command || (s.pending_subs_in_flight || s.pending_unsubs_in_flight))
  pub idle_subs : s.in_flight ≡ false → s.pending_subs ≡ []
  pub idle_unsubs : s.in_flight ≡ false → s.pending_unsubs ≡ []

-- How a stream stands: a waiting subscription has reached the exchange exactly if it is in the batch
-- on its way, likewise a waiting unsubscription; a live stream is waiting, or delivered and not
-- about to be ended.
pub record Tracks (w : World) (x : String) : Type 0 where
  pub subs :
      contains x w.session.pending_subs ≡ true
      → contains x w.server ≡ w.session.pending_subs_in_flight
  pub unsubs :
      contains x w.session.pending_unsubs ≡ true
      → contains x w.server ≡ not w.session.pending_unsubs_in_flight
  pub disjoint : (contains x w.session.pending_subs && contains x w.session.pending_unsubs) ≡ false
  pub live : contains x w.session.live_subscriptions ≡ (
      contains x w.session.pending_subs
      || (contains x w.server && not (contains x w.session.pending_unsubs)))

pub record Sync (w : World) : Type 0 where
  pub phase : InPhase w.session
  pub tracks : (x : String) → Tracks w x

-- While a batch is on its way, no stream of the batch is unsubscribed (subscribed, for a batch of
-- unsubscriptions), and no stream is added to the batch.
abbrev pub IsSafe : Session → Event → Type 0
IsSafe s (subscribes x) =
    ((s.pending_subs_in_flight && not (contains x s.pending_unsubs)) ≡ false)
    × ((s.pending_unsubs_in_flight && contains x s.pending_unsubs) ≡ false)
IsSafe s (unsubscribes x) =
    ((s.pending_subs_in_flight && contains x s.pending_subs) ≡ false)
    × ((s.pending_unsubs_in_flight && not (contains x s.pending_subs)) ≡ false)
IsSafe s written = Unit

module _ (w : World) (y x : String) (p : InPhase w.session) (t : Tracks w x) where
  subscribes-Tracks : IsSafe w.session (subscribes y) → Tracks (step w (subscribes y)) x
  unfolding step exec subscribe_stream insert_all contains
  subscribes-Tracks safe = ground (
    arith,
    contains-insert y x w.session.live_subscriptions,
    contains-insert y x w.session.pending_subs,
    contains-erase y x w.session.pending_unsubs,
    contains-insert y x w.server,
  )

  unsubscribes-Tracks : IsSafe w.session (unsubscribes y) → Tracks (step w (unsubscribes y)) x
  unfolding step exec unsubscribe_stream erase_all contains
  unsubscribes-Tracks safe = ground (
    arith,
    contains-erase y x w.session.live_subscriptions,
    contains-erase y x w.session.pending_subs,
    contains-insert y x w.session.pending_unsubs,
    contains-erase y x w.server,
  )

module _ (w : World) (p : InPhase w.session) where
  written-Tracks : (x : String) → Tracks w x → Tracks (step w written) x
  unfolding step exec on_write contains
  written-Tracks x t = ground (
    arith,
    contains-insert_all x w.session.pending_subs w.server,
    contains-erase_all x w.session.pending_unsubs w.server,
  )

  pub written-InPhase : InPhase (step w written).session
  unfolding step exec on_write
  written-InPhase = ground arith

  pub subscribes-InPhase : (y : String) → InPhase (step w (subscribes y)).session
  unfolding step exec subscribe_stream
  subscribes-InPhase y = ground arith

  pub unsubscribes-InPhase : (y : String) → InPhase (step w (unsubscribes y)).session
  unfolding step exec unsubscribe_stream
  unsubscribes-InPhase y = ground arith

pub step-Sync : (w : World) (e : Event) → Sync w → IsSafe w.session e → Sync (step w e)
step-Sync w (subscribes y) v safe = record {
  phase = subscribes-InPhase w v.phase y;
  tracks = λ x. subscribes-Tracks w y x v.phase (v.tracks x) safe;
}
step-Sync w (unsubscribes y) v safe = record {
  phase = unsubscribes-InPhase w v.phase y;
  tracks = λ x. unsubscribes-Tracks w y x v.phase (v.tracks x) safe;
}
step-Sync w written v safe = record {
  phase = written-InPhase w v.phase;
  tracks = λ x. written-Tracks w v.phase x (v.tracks x);
}

unfoldable pub run : World → List Event → World
run w [] = w
run w (e ∷ es) = run (step w e) es

-- Every command is safe where it comes.
abbrev pub AreSafe : World → List Event → Type 0
AreSafe w [] = Unit
AreSafe w (e ∷ es) = IsSafe w.session e × AreSafe (step w e) es

-- From a world in step, through any commands and answered writes as long as no command touches a batch
-- on its way: the world stays in step.
pub run-Sync : (w : World) (es : List Event) → Sync w → AreSafe w es → Sync (run w es)
unfolding run
run-Sync w [] v safe = v
run-Sync w (e ∷ es) v safe = run-Sync (step w e) es (step-Sync w e v safe.0) safe.1

-- With nothing on its way the exchange delivers the live streams and no others.
pub Sync-idle :
    (w : World) (x : String)
    → Sync w
    → w.session.in_flight ≡ false
    → contains x w.server ≡ contains x w.session.live_subscriptions
unfolding contains
Sync-idle w x v i = ground (arith, v.tracks x, v.phase.idle_subs i, v.phase.idle_unsubs i)
