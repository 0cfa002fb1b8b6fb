-- ===== src/Session/Races.antt =====
-- MDGateways/Binance/WebSockets.h, class `session`: commands that come while a batch is on its way.
use multi_market_prices.Prelude.{
  ◌≡◌, true, false, String, string_eq, contains, contains-insert, contains-erase, arith,
}
use multi_market_prices.Session.Commands.{subscribe_stream, unsubscribe_stream}
use multi_market_prices.Session.Connection.{on_write}
use multi_market_prices.Session.Exchange.{
  World, subscribes, unsubscribes, written, exec, step, contains-insert_all, contains-erase_all,
}
use multi_market_prices.Session.Sync.{Sync}

-- Nothing waits to be sent for the stream.
abbrev pub IsForgotten : World → String → Type 0
IsForgotten w x =
    (contains x w.session.pending_subs ≡ false) × (contains x w.session.pending_unsubs ≡ false)

module _ (w : World) (x : String) (v : Sync w) where
  parked_sub-lost :
      w.session.pending_subs_in_flight ≡ true
      → contains x w.session.live_subscriptions ≡ false
      → contains x w.session.pending_unsubs ≡ false
      → let w' = step (step w (subscribes x)) written in
        (contains x w'.session.live_subscriptions ≡ true)
        × (contains x w'.server ≡ false)
        × IsForgotten w' x
  unfolding step exec subscribe_stream on_write contains
  parked_sub-lost b l u = ground (
    arith,
    v.phase,
    v.tracks x,
    contains-insert x x w.session.live_subscriptions,
    contains-insert x x w.session.pending_subs,
    contains-erase_all x w.session.pending_unsubs w.server,
  )

  sent_sub-leaked :
      w.session.pending_subs_in_flight ≡ true
      → contains x w.session.pending_subs ≡ true
      → let w' = step (step w (unsubscribes x)) written in
        (contains x w'.session.live_subscriptions ≡ false)
        × (contains x w'.server ≡ true)
        × IsForgotten w' x
  unfolding step exec unsubscribe_stream on_write contains
  sent_sub-leaked b s = ground (
    arith,
    v.phase,
    v.tracks x,
    contains-erase x x w.session.live_subscriptions,
    contains-erase x x w.session.pending_subs,
    contains-erase_all x w.session.pending_unsubs w.server,
  )

  parked_unsub-lost :
      w.session.pending_unsubs_in_flight ≡ true
      → contains x w.session.live_subscriptions ≡ true
      → contains x w.session.pending_subs ≡ false
      → let w' = step (step w (unsubscribes x)) written in
        (contains x w'.session.live_subscriptions ≡ false)
        × (contains x w'.server ≡ true)
        × IsForgotten w' x
  unfolding step exec unsubscribe_stream on_write contains
  parked_unsub-lost b l u = ground (
    arith,
    v.phase,
    v.tracks x,
    contains-erase x x w.session.live_subscriptions,
    contains-insert x x w.session.pending_unsubs,
    contains-insert_all x w.session.pending_subs w.server,
  )

  sent_unsub-lost :
      w.session.pending_unsubs_in_flight ≡ true
      → contains x w.session.pending_unsubs ≡ true
      → let w' = step (step w (subscribes x)) written in
        (contains x w'.session.live_subscriptions ≡ true)
        × (contains x w'.server ≡ false)
        × (contains x w'.session.pending_unsubs ≡ false)
        × (contains x (step w (subscribes x)).session.pending_subs ≡ false)
  unfolding step exec subscribe_stream on_write contains
  sent_unsub-lost b u = ground (
    arith,
    v.phase,
    v.tracks x,
    contains-insert x x w.session.live_subscriptions,
    contains-erase x x w.session.pending_unsubs,
    contains-insert_all x w.session.pending_subs w.server,
  )

-- While a batch of subscriptions is on its way on a world in step: a stream that is not live and
-- waits for no unsubscription, and is subscribed then, is live, but is not delivered by the
-- exchange and waits no longer once the batch is written; a stream of the batch that is
-- unsubscribed then is not live, but is still delivered, and no unsubscription waits.
pub subs_batch_races :
    (w : World) (x y : String)
    → Sync w
    → w.session.pending_subs_in_flight ≡ true
    → contains x w.session.live_subscriptions ≡ false
    → contains x w.session.pending_unsubs ≡ false
    → contains y w.session.pending_subs ≡ true
    → let added = step (step w (subscribes x)) written in
      let dropped = step (step w (unsubscribes y)) written in
      (contains x added.session.live_subscriptions ≡ true)
      × (contains x added.server ≡ false)
      × IsForgotten added x
      × (contains y dropped.session.live_subscriptions ≡ false)
      × (contains y dropped.server ≡ true)
      × IsForgotten dropped y
subs_batch_races w x y v b l u s =
    let lost = parked_sub-lost w x v b l u in
    let leaked = sent_sub-leaked w y v b s in (lost.0, lost.1, lost.2, leaked.0, leaked.1, leaked.2)
