-- ===== src/Feed/Serving.antt =====
-- PlatformComm.cpp, Binance.cpp and WebSockets.h together, with the exchange: from the message of an
-- application to the exchange's stream and back to the application.
use multi_market_prices.Prelude.{
  ◌≡◌, ap, ◌∙◌, true, false, some, List, [], ◌∷◌, String, string_eq, nat_eq, ◌==◌, ◌||◌,
  if◌then◌else◌, ℕ, lookup, contains, contains-insert, arith, ==_refl,
}
use multi_market_prices.Constants.Market.{PriceType, price_type_text}
use multi_market_prices.Binance.{Json, Object}
use multi_market_prices.Binance.Streams.{key_of, stream_of, IsSymbol, IsFrame, is_complete}
use multi_market_prices.Partition.{Engine, process, operational, sub_unsub_key}
use multi_market_prices.Platform.{PlatformEffect, Platform, msg_cb}
use multi_market_prices.Platform.Routing.{topics_of, IsRouted}
use multi_market_prices.Platform.Delivery.{sends}
use multi_market_prices.Session.{Session, M}
use multi_market_prices.Session.Commands.{subscribe_stream}
use multi_market_prices.Session.Exchange.{World, subscribes, written, exec, step, hears}
use multi_market_prices.Session.Sync.{Sync, IsSafe, run, step-Sync}
use multi_market_prices.Session.Settling.{settles}
use multi_market_prices.Feed.{gateway, control_router, post_controls, on_frame}
use multi_market_prices.Feed.Subscribing.{IsRequest, subscriber_gets_prices}

-- A stream that is subscribed is live.
subscribed_live :
    (w : World) (x : String) → contains x (step w (subscribes x)).session.live_subscriptions ≡ true
unfolding step exec subscribe_stream
subscribed_live w x = ground (arith, contains-insert x x w.session.live_subscriptions, ==_refl x)

-- What is posted is the command.
exec-posted :
    (m : M) (x : String) (w : World)
    → ((c : Session) → m c ≡ subscribe_stream x c)
    → exec m w ≡ step w (subscribes x)
unfolding exec step
exec-posted m x w e = ap (λ r. record { session = r.0; server = hears r.1 w.server }) (e w.session)

-- For a partition whose machine makes of a subscription the one command that `process` of the
-- operational state makes of it, a well-formed table, a symbol in capitals without a colon or an at
-- sign, a topic that is none of the key's yet, and a session that is connected and in step with the
-- exchange and has no batch on its way that the command would disturb: the message that subscribes
-- the topic to the price is handled without an exception; what it posts to the session, followed by
-- three answered writes, leaves the price's stream among those that the exchange delivers; and a
-- frame of this stream with a complete content is then sent once to the topic and to each that was
-- the key's before, and to no other.
pub subscription_is_served :
    {F V : Type 0} (engine : Engine F) (json : Json V)
    (disintegrate : String → String × String × String) (partition : ℕ) (fsm : F)
    (msg topic symbol : String) (p : PriceType) (s : Platform F) (update : String) (obj : Object V)
    (w : World)
    → IsSymbol symbol
    → IsRequest json msg symbol (price_type_text p) topic
    → lookup partition s.partition_fsms ≡ some fsm
    → (engine.handle_event fsm (sub_unsub_key (key_of symbol p) true)).1
      ≡ (process operational (sub_unsub_key (key_of symbol p) true)).1
    → IsRouted s.symbol_to_dest_topics
    → contains topic (topics_of s.symbol_to_dest_topics (key_of symbol p)) ≡ false
    → IsFrame json update (stream_of symbol p) obj
    → is_complete json p obj ≡ true
    → Sync w
    → IsSafe w.session (subscribes (stream_of symbol p))
    → (out : Platform F × List PlatformEffect) × (m : M) × (es : List PlatformEffect) × (msg_cb
          engine
          (gateway json disintegrate)
          partition
          "subscribe"
          msg
          s
        ≡ some out)
      × (post_controls control_router out.1 ≡ some m)
      × (contains (stream_of symbol p) (run (exec m w) (written ∷ written ∷ written ∷ [])).server
          ≡ true)
      × (on_frame json disintegrate update out.0.symbol_to_dest_topics ≡ some es)
      × ((x : String)
          → sends x es ≡ (
              if topic == x || contains x (topics_of s.symbol_to_dest_topics (key_of symbol p))
              then 1
              else 0))
subscription_is_served engine json disintegrate partition fsm msg topic symbol p s update obj w g q
      f h v c r k y safe =
    let (out, m, es, handled, posts, does, framed, once) =
      subscriber_gets_prices engine json disintegrate partition fsm msg topic symbol p s update obj
        g q f h v c r k in
    let stream = stream_of symbol p in
    let settled =
      settles (step w (subscribes stream)) stream (step-Sync w (subscribes stream) y safe) in
    (
      out,
      m,
      es,
      handled,
      posts,
      rw (exec-posted m stream w does) (settled.2 ∙ subscribed_live w stream),
      framed,
      once,
    )
