-- ===== src/Feed/Starving.antt =====
-- PlatformComm.cpp, Binance.cpp and WebSockets.h together, with the exchange: one of several
-- applications unsubscribes a price.
use multi_market_prices.Prelude.{
  ℕ, ◌≡◌, ap, ◌∙◌, true, false, some, List, [], ◌∷◌, String, string_eq, nat_eq, ◌==◌, lookup,
  contains, contains-erase, arith, ==_refl,
}
use multi_market_prices.Constants.Market.{PriceType, price_type_text}
use multi_market_prices.Binance.{Json}
use multi_market_prices.Binance.Streams.{key_of, stream_of, IsSymbol}
use multi_market_prices.Partition.{Engine, process, operational, sub_unsub_key}
use multi_market_prices.Platform.{PlatformEffect, Platform, msg_cb, route}
use multi_market_prices.Platform.Routing.{topics_of, handle_book_keeping_lem}
use multi_market_prices.Session.{Session, M, ◌>>◌}
use multi_market_prices.Session.Commands.{unsubscribe_stream}
use multi_market_prices.Session.Exchange.{World, unsubscribes, written, exec, step, hears}
use multi_market_prices.Session.Sync.{Sync, IsSafe, run, step-Sync}
use multi_market_prices.Session.Settling.{settles}
use multi_market_prices.Feed.{gateway, control_router, post_controls, idle}
use multi_market_prices.Feed.Subscribing.{IsRequest, msg_cb-route, routed, idle_after}

-- A stream that is unsubscribed is not live.
unsubscribed_live :
    (w : World) (x : String)
    → contains x (step w (unsubscribes x)).session.live_subscriptions ≡ false
unfolding step exec unsubscribe_stream
unsubscribed_live w x = ground (arith, contains-erase x x w.session.live_subscriptions, ==_refl x)

exec-posted :
    (m : M) (x : String) (w : World)
    → ((c : Session) → m c ≡ unsubscribe_stream x c)
    → exec m w ≡ step w (unsubscribes x)
unfolding exec step
exec-posted m x w e = ap (λ r. record { session = r.0; server = hears r.1 w.server }) (e w.session)

-- For a partition whose machine makes of an unsubscription the one command that `process` of the
-- operational state makes of it, a symbol in capitals without a colon or an at sign, two different
-- topics of the price's key, and a session that is connected and in step with the exchange and has
-- no batch on its way that the command would disturb: the message that unsubscribes the one topic is
-- handled without an exception and leaves the other a topic of the key; but what it posts to the
-- session, followed by three answered writes, leaves the price's stream not among those that the
-- exchange delivers, so that the other topic gets no price any more.
pub unsubscription_starves :
    {F V : Type 0} (engine : Engine F) (json : Json V)
    (disintegrate : String → String × String × String) (partition : ℕ) (fsm : F)
    (msg gone stays symbol : String) (p : PriceType) (s : Platform F) (w : World)
    → IsSymbol symbol
    → IsRequest json msg symbol (price_type_text p) gone
    → lookup partition s.partition_fsms ≡ some fsm
    → (engine.handle_event fsm (sub_unsub_key (key_of symbol p) false)).1
      ≡ (process operational (sub_unsub_key (key_of symbol p) false)).1
    → contains gone (topics_of s.symbol_to_dest_topics (key_of symbol p)) ≡ true
    → contains stays (topics_of s.symbol_to_dest_topics (key_of symbol p)) ≡ true
    → (gone == stays) ≡ false
    → Sync w
    → IsSafe w.session (unsubscribes (stream_of symbol p))
    → (out : Platform F × List PlatformEffect) × (m : M) × (msg_cb engine
          (gateway json disintegrate)
          partition
          "unsubscribe"
          msg
          s
        ≡ some out)
      × (post_controls control_router out.1 ≡ some m)
      × (contains stays (topics_of out.0.symbol_to_dest_topics (key_of symbol p)) ≡ true)
      × (contains (stream_of symbol p) (run (exec m w) (written ∷ written ∷ written ∷ [])).server
          ≡ false)
unfolding process
unsubscription_starves engine json disintegrate partition fsm msg gone stays symbol p s w g q f h a
      b n y safe =
    let key = key_of symbol p in
    let stream = stream_of symbol p in
    let m : M = (unsubscribe_stream stream >> idle) >> idle in
    let (table, posts) =
      routed engine json disintegrate partition fsm false gone symbol p s g a h in
    let told = handle_book_keeping_lem s.symbol_to_dest_topics key gone false key stays in
    let settled =
      settles (step w (unsubscribes stream)) stream (step-Sync w (unsubscribes stream) y safe) in
    (
      route engine partition fsm key gone false s,
      m,
      msg_cb-route engine json disintegrate partition fsm false msg gone symbol p s f q,
      posts,
      rw table (ground (arith, told.0, b, n)),
      rw (exec-posted m stream w (idle_after (unsubscribe_stream stream)))
          (settled.2 ∙ unsubscribed_live w stream),
    )
