-- ===== src/Session/Stale.antt =====
-- MDGateways/Binance/WebSockets.h, class `session`: an unsubscription that waits when the connection is
-- lost.
use multi_market_prices.Prelude.{
  ◌≡◌, true, false, List, [], ◌∷◌, String, string_eq, ◌==◌, contains, contains-insert,
  contains-erase, none, All, ==_refl, ◌∙◌, Bool, arith,
}
use multi_market_prices.Session.{ErrorCode, Session}
use multi_market_prices.Session.Commands.{subscribe_stream, unsubscribe_stream}
use multi_market_prices.Session.Errors.{ErrorOrigin}
use multi_market_prices.Session.Connection.{resend, on_handshake, on_write}
use multi_market_prices.Session.Exchange.{
  World, Event, subscribes, unsubscribes, written, exec, step, insert_all, erase_all,
  contains-insert_all, contains-erase_all,
}
use multi_market_prices.Session.Sync.{
  InPhase, run, written-InPhase, subscribes-InPhase, unsubscribes-InPhase,
}
use multi_market_prices.Session.Recovery.{disconnected, lose, lose_lem, noted, resubscribe-IsKept}

-- An answered write, or a command on another stream.
abbrev pub IsOther : String → Event → Type 0
IsOther x (subscribes y) = (y == x) ≡ false
IsOther x (unsubscribes y) = (y == x) ≡ false
IsOther x written = Unit

-- The stream is not live, not delivered and not to be subscribed.
record IsStale (x : String) (w : World) : Type 0 where
  phase : InPhase w.session
  not_live : contains x w.session.live_subscriptions ≡ false
  not_parked : contains x w.session.pending_subs ≡ false
  not_served : contains x w.server ≡ false

module _ (x : String) (w : World) (s : IsStale x w) where
  subscribes-IsStale : (y : String) → (y == x) ≡ false → IsStale x (step w (subscribes y))
  unfolding step exec subscribe_stream insert_all contains
  subscribes-IsStale y n = record {
    phase = subscribes-InPhase w s.phase y;
    not_live = ground (arith, s.not_live, contains-insert y x w.session.live_subscriptions);
    not_parked = ground (arith, s.not_parked, contains-insert y x w.session.pending_subs);
    not_served = ground (arith, s.not_served, contains-insert y x w.server);
  }

  unsubscribes-IsStale : (y : String) → (y == x) ≡ false → IsStale x (step w (unsubscribes y))
  unfolding step exec unsubscribe_stream erase_all contains
  unsubscribes-IsStale y n = record {
    phase = unsubscribes-InPhase w s.phase y;
    not_live = ground (arith, s.not_live, contains-erase y x w.session.live_subscriptions);
    not_parked = ground (arith, s.not_parked, contains-erase y x w.session.pending_subs);
    not_served = ground (arith, s.not_served, contains-erase y x w.server);
  }

  written-IsStale : IsStale x (step w written)
  unfolding step exec on_write contains
  written-IsStale = record {
    phase = written-InPhase w s.phase;
    not_live = ground (arith, s.not_live);
    not_parked = ground (arith, s.not_parked);
    not_served = ground (
      arith,
      s.not_served,
      s.not_parked,
      contains-insert_all x w.session.pending_subs w.server,
      contains-erase_all x w.session.pending_unsubs w.server,
    );
  }

run-IsStale :
    (x : String) (w : World) (es : List Event)
    → All (IsOther x) es
    → IsStale x w
    → IsStale x (run w es)
unfolding run
run-IsStale x w [] o s = s
run-IsStale x w (subscribes y ∷ es) o s =
    run-IsStale x (step w (subscribes y)) es o.1 (subscribes-IsStale x w s y o.0)
run-IsStale x w (unsubscribes y ∷ es) o s =
    run-IsStale x (step w (unsubscribes y)) es o.1 (unsubscribes-IsStale x w s y o.0)
run-IsStale x w (written ∷ es) o s = run-IsStale x (step w written) es o.1 (written-IsStale x w s)

-- The stream is live, but neither delivered nor to be sent.
record IsLost (x : String) (w : World) : Type 0 where
  live : contains x w.session.live_subscriptions ≡ true
  not_served : contains x w.server ≡ false
  not_parked : contains x w.session.pending_subs ≡ false
  not_ended : contains x w.session.pending_unsubs ≡ false

module _ (x : String) (w : World) (s : IsLost x w) where
  subscribes-IsLost : (y : String) → (y == x) ≡ false → IsLost x (step w (subscribes y))
  unfolding step exec subscribe_stream insert_all contains
  subscribes-IsLost y n = record {
    live = ground (arith, s.live, contains-insert y x w.session.live_subscriptions);
    not_served = ground (arith, s.not_served, contains-insert y x w.server);
    not_parked = ground (arith, s.not_parked, contains-insert y x w.session.pending_subs);
    not_ended = ground (arith, s.not_ended, contains-erase y x w.session.pending_unsubs);
  }

  unsubscribes-IsLost : (y : String) → (y == x) ≡ false → IsLost x (step w (unsubscribes y))
  unfolding step exec unsubscribe_stream erase_all contains
  unsubscribes-IsLost y n = record {
    live = ground (arith, s.live, contains-erase y x w.session.live_subscriptions);
    not_served = ground (arith, s.not_served, contains-erase y x w.server);
    not_parked = ground (arith, s.not_parked, contains-erase y x w.session.pending_subs);
    not_ended = ground (arith, s.not_ended, contains-insert y x w.session.pending_unsubs);
  }

  written-IsLost : IsLost x (step w written)
  unfolding step exec on_write contains
  written-IsLost = record {
    live = ground (arith, s.live);
    not_served = ground (
      arith,
      s.not_served,
      s.not_parked,
      contains-insert_all x w.session.pending_subs w.server,
      contains-erase_all x w.session.pending_unsubs w.server,
    );
    not_parked = ground (arith, s.not_parked);
    not_ended = ground (arith, s.not_ended);
  }

run-IsLost :
    (x : String) (w : World) (es : List Event)
    → All (IsOther x) es
    → IsLost x w
    → IsLost x (run w es)
unfolding run
run-IsLost x w [] o s = s
run-IsLost x w (subscribes y ∷ es) o s =
    run-IsLost x (step w (subscribes y)) es o.1 (subscribes-IsLost x w s y o.0)
run-IsLost x w (unsubscribes y ∷ es) o s =
    run-IsLost x (step w (unsubscribes y)) es o.1 (unsubscribes-IsLost x w s y o.0)
run-IsLost x w (written ∷ es) o s = run-IsLost x (step w written) es o.1 (written-IsLost x w s)

-- With its unsubscription still waiting, the stream is subscribed.
subscribed-IsLost :
    (x : String) (w : World)
    → IsStale x w
    → contains x w.session.pending_unsubs ≡ true
    → IsLost x (step w (subscribes x))
unfolding step exec subscribe_stream contains
subscribed-IsLost x w s u =
    let idle = s.phase.idle_unsubs in
    record {
      live =
          ground (arith, s.not_live, ==_refl x, contains-insert x x w.session.live_subscriptions);
      not_served = ground (arith, s.not_served, s.not_live, u, idle);
      not_parked = ground (arith, s.not_parked, s.not_live, u, idle);
      not_ended =
          ground
            (arith, s.not_live, u, idle, ==_refl x, contains-erase x x w.session.pending_unsubs);
    }

module _ (x : String) (s : Session) where
  handshake-IsStale :
      s.in_flight_command ≡ none
      → contains x s.pending_subs ≡ false
      → contains x s.live_subscriptions ≡ false
      → IsStale x (exec (on_handshake true none) (record { session = disconnected s; server = [] }))
  unfolding exec on_handshake resend contains
  handshake-IsStale c p l =
      let start : Session = record (disconnected s) { connected = true; connected_once = true } in
      let t = noted (disconnected s) in
      let k = resubscribe-IsKept s.live_subscriptions start in
      let told = k.others x l in
      let up = k.up in
      let command = k.command ∙ c in
      let quiet = k.in_flight in
      let subs = k.subs_batch in
      let unsubs = k.unsubs_batch in
      record {
        phase = record {
          up = ground arith;
          one_batch = ground arith;
          no_batch = ground arith;
          busy = ground arith;
          idle_subs = ground arith;
          idle_unsubs = ground arith;
        };
        not_live = ground (arith, k.all_live);
        not_parked = ground arith;
        not_served = ground (
          arith,
          contains-insert_all x t.pending_subs [],
          contains-erase_all x t.pending_unsubs [],
        );
      }

-- A connection that was up once is lost, with an error other than an aborted operation and no single
-- command on its way, and there is a next handshake. For a stream that is neither live nor to be
-- subscribed when the connection is lost: whatever commands on other streams and answered writes
-- come after the handshake, if the stream is subscribed while an unsubscription of it from before
-- still waits or is not answered, it is live; but whatever commands on other streams and answered
-- writes come after that on this connection, it stays live, the exchange does not deliver it, and
-- nothing waits to be sent for it.
pub stale_unsub-lost :
    (is_open : Bool) (ec : ErrorCode) (origin : ErrorOrigin) (w : World) (x : String)
    (before after : List Event)
    → ec.is_aborted ≡ false
    → w.session.connected_once ≡ true
    → w.session.in_flight_command ≡ none
    → contains x w.session.pending_subs ≡ false
    → contains x w.session.live_subscriptions ≡ false
    → All (IsOther x) before
    → All (IsOther x) after
    → contains x
        (run
          (exec (on_handshake true none) (lose is_open ec origin w))
          before).session.pending_unsubs
      ≡ true
    → let again = run (exec (on_handshake true none) (lose is_open ec origin w)) before in
      let w' = run (step again (subscribes x)) after in
      (contains x w'.session.live_subscriptions ≡ true)
      × (contains x w'.server ≡ false)
      × (contains x w'.session.pending_subs ≡ false)
      × (contains x w'.session.pending_unsubs ≡ false)
stale_unsub-lost is_open ec origin w x before after a o c p l b f u =
    let up = exec (on_handshake true none) (lose is_open ec origin w) in
    let stale : IsStale x up =
      rw (lose_lem is_open ec origin w a o) (handshake-IsStale x w.session c p l) in
    let again = run up before in
    let lost =
      run-IsLost x (step again (subscribes x)) after f
        (subscribed-IsLost x again (run-IsStale x up before b stale) u) in
    (lost.live, lost.not_served, lost.not_parked, lost.not_ended)
