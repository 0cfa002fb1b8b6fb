-- ===== src/Feed/Subscribing.antt =====
-- PlatformComm.cpp, CrazyRouters.hpp and Binance.cpp together: a subscription on its way from an
-- application to the session, and what the application then gets.
use mathlib.Core.List.{append-nil}
use multi_market_prices.Prelude.{
  ℕ, ◌≡◌, refl, Bool, true, false, not, some, List, [], ◌∷◌, ◌++◌, String, string_eq, string_dec,
  nat_eq, ◌==◌, ◌||◌, if◌then◌else◌, lookup, contains, arith, assign, ==_refl,
}
use multi_market_prices.Constants.Market.{PriceType, price_type_text}
use multi_market_prices.Constants.Tags.{Tags, tags_text}
use multi_market_prices.Binance.{
  Json, Object, and_then, generate_key_from_sub_unsub_request, on_control,
}
use multi_market_prices.Binance.Streams.{
  key_of, stream_of, subscribe-key_of, unsubscribe-key_of, IsSymbol, IsFrame, is_complete,
  update_for,
}
use multi_market_prices.Partition.{Engine, process, operational, sub_unsub_key}
use multi_market_prices.Platform.{
  Payload, control, PlatformEffect, Platform, msg_cb, route, handle_book_keeping,
}
use multi_market_prices.Platform.Routing.{
  topics_of, IsRouted, handle_book_keeping_lem, handle_book_keeping-IsRouted,
}
use multi_market_prices.Platform.Delivery.{on_price_data, sends, on_price_data_lem}
use multi_market_prices.Router.PubSub.{produce, consume_every_thing}
use multi_market_prices.Session.{Session, M, ◌>>◌}
use multi_market_prices.Session.Commands.{subscribe_stream, unsubscribe_stream}
use multi_market_prices.Feed.{
  idle, gateway, update_of, control_router, run_controls, post_controls, on_frame,
}
use multi_market_prices.Feed.Prices.{no_star, on_frame_lem}

-- What the session is to do.
abbrev pub command_of : Bool → String → M
command_of true stream = subscribe_stream stream
command_of false stream = unsubscribe_stream stream

abbrev pub type_of : Bool → String
type_of true = "subscribe"
type_of false = "unsubscribe"

module _ {V : Type 0} (json : Json V) where
  -- A message that names a symbol, the type of a price, and the topic that is to get it.
  pub record IsRequest (msg symbol type topic : String) : Type 0 where
    pub parsed : V
    pub request : Object V
    pub symbol_value : V
    pub type_value : V
    pub topic_value : V
    pub parses : json.parse msg ≡ some parsed
    pub is_object : json.as_object parsed ≡ some request
    pub has_symbol : lookup (tags_text Tags.symbol) request ≡ some symbol_value
    pub is_symbol : json.as_string symbol_value ≡ some symbol
    pub has_type : lookup (tags_text Tags.subscription_type) request ≡ some type_value
    pub is_type : json.as_string type_value ≡ some type
    pub has_topic : lookup "destination_topic" request ≡ some topic_value
    pub is_topic : json.as_string topic_value ≡ some topic

  named :
      (msg topic symbol : String) (p : PriceType)
      (q : IsRequest msg symbol (price_type_text p) topic)
      → generate_key_from_sub_unsub_request json q.request ≡ some (key_of symbol p)
  unfolding generate_key_from_sub_unsub_request
  named msg topic symbol p q =
      rw (q.has_symbol, q.has_type, and_then) (rw (q.is_symbol, q.is_type, and_then) refl)

module _ {F V : Type 0} (engine : Engine F) (json : Json V)
    (disintegrate : String → String × String × String) where
  -- The handler comes to the book-keeping.
  pub msg_cb-route :
      (partition : ℕ) (fsm : F) (is_sub : Bool) (msg topic symbol : String) (p : PriceType)
      (s : Platform F)
      → lookup partition s.partition_fsms ≡ some fsm
      → IsRequest json msg symbol (price_type_text p) topic
      → msg_cb engine (gateway json disintegrate) partition (type_of is_sub) msg s
        ≡ some (route engine partition fsm (key_of symbol p) topic is_sub s)
  unfolding msg_cb string_dec
  msg_cb-route partition fsm true msg topic symbol p s f q =
      rw (f, q.parses, msg_cb)
        (rw (q.is_object, named json msg topic symbol p q, msg_cb)
          (rw (q.has_topic, msg_cb) (rw (q.is_topic, msg_cb) refl)))
  msg_cb-route partition fsm false msg topic symbol p s f q =
      rw (f, q.parses, msg_cb)
        (rw (q.is_object, named json msg topic symbol p q, msg_cb)
          (rw (q.has_topic, msg_cb) (rw (q.is_topic, msg_cb) refl)))

on_control-key_of :
    (symbol : String) (p : PriceType) (is_sub : Bool)
    → IsSymbol symbol
    → on_control (key_of symbol p) is_sub ≡ some (command_of is_sub (stream_of symbol p))
unfolding on_control
on_control-key_of symbol p true s = subscribe-key_of symbol p s
on_control-key_of symbol p false s = unsubscribe-key_of symbol p s

-- The control router has one listener, the exchange's.
posted :
    (symbol : String) (p : PriceType) (is_sub : Bool) (a b c : String) (d : Payload)
    → IsSymbol symbol
    → post_controls control_router
        (control (key_of symbol p) is_sub ∷ PlatformEffect.produce a b c d ∷ [])
      ≡ some ((command_of is_sub (stream_of symbol p) >> idle) >> idle)
unfolding post_controls control_router consume_every_thing produce lookup assign run_controls
posted symbol p is_sub a b c d s = rw (on_control-key_of symbol p is_sub s) refl

pub idle_after : (m : M) (c : Session) → ((m >> idle) >> idle) c ≡ m c
idle_after m c = rw (append-nil ((m c).1 ++ []), append-nil (m c).1) refl

module _ {F V : Type 0} (engine : Engine F) (json : Json V)
    (disintegrate : String → String × String × String) where
  -- A subscription or unsubscription that changes the table.
  pub routed :
      (partition : ℕ) (fsm : F) (is_sub : Bool) (topic symbol : String) (p : PriceType)
      (s : Platform F)
      → IsSymbol symbol
      → contains topic (topics_of s.symbol_to_dest_topics (key_of symbol p)) ≡ not is_sub
      → (engine.handle_event fsm (sub_unsub_key (key_of symbol p) is_sub)).1
        ≡ (key_of symbol p, is_sub) ∷ []
      → let out = route engine partition fsm (key_of symbol p) topic is_sub s in
        (out.0.symbol_to_dest_topics
          ≡ (handle_book_keeping (key_of symbol p) topic is_sub s.symbol_to_dest_topics).0)
        × (post_controls control_router out.1
            ≡ some ((command_of is_sub (stream_of symbol p) >> idle) >> idle))
  unfolding route
  routed partition fsm true topic symbol p s g c h =
      let told =
        handle_book_keeping_lem s.symbol_to_dest_topics (key_of symbol p) topic true "" "" in
      rw (told.1, c, h) (refl, posted symbol p true _ _ _ _ g)
  routed partition fsm false topic symbol p s g c h =
      let told =
        handle_book_keeping_lem s.symbol_to_dest_topics (key_of symbol p) topic false "" "" in
      rw (told.1, c, h) (refl, posted symbol p false _ _ _ _ g)

  subscribed_table :
      (topic symbol : String) (p : PriceType) (update : String) (obj : Object V) (s : Platform F)
      → IsRouted s.symbol_to_dest_topics
      → IsSymbol symbol
      → IsFrame json update (stream_of symbol p) obj
      → let key = key_of symbol p in
        let t = (handle_book_keeping key topic true s.symbol_to_dest_topics).0 in
        let u = update_of (update_for json p symbol obj) in
        (x : String)
        → sends x (on_price_data (gateway json disintegrate) key u t)
          ≡ (if topic == x || contains x (topics_of s.symbol_to_dest_topics key) then 1 else 0)
  subscribed_table topic symbol p update obj s v g r x =
      let key = key_of symbol p in
      let t = (handle_book_keeping key topic true s.symbol_to_dest_topics).0 in
      let told = handle_book_keeping_lem s.symbol_to_dest_topics key topic true key x in
      let once =
        (on_price_data_lem (gateway json disintegrate) key
            (update_of (update_for json p symbol obj)) t
            (handle_book_keeping-IsRouted s.symbol_to_dest_topics key topic true v)
            (no_star json disintegrate symbol p update obj g r)).0
          x in
      ground (arith, told.0, once, ==_refl key)

  -- An assigned partition whose machine makes of a subscription the one command that `process` of
  -- the operational state makes of it, a well-formed table, a symbol in capitals without a colon or
  -- an at sign, and a topic that is none of the key's yet. A message that subscribes the topic to
  -- the price is handled without an exception; what it posts makes the session do just what
  -- `subscribe_stream` does for the price's stream; and from then on a frame of this stream with a
  -- complete content is sent once to the topic and to each that was the key's before, and to no
  -- other.
  pub subscriber_gets_prices :
      (partition : ℕ) (fsm : F) (msg topic symbol : String) (p : PriceType) (s : Platform F)
      (update : String) (obj : Object V)
      → IsSymbol symbol
      → IsRequest json msg symbol (price_type_text p) topic
      → lookup partition s.partition_fsms ≡ some fsm
      → (engine.handle_event fsm (sub_unsub_key (key_of symbol p) true)).1
        ≡ (process operational (sub_unsub_key (key_of symbol p) true)).1
      → IsRouted s.symbol_to_dest_topics
      → contains topic (topics_of s.symbol_to_dest_topics (key_of symbol p)) ≡ false
      → IsFrame json update (stream_of symbol p) obj
      → is_complete json p obj ≡ true
      → (out : Platform F × List PlatformEffect) × (m : M) × (es : List PlatformEffect) × (msg_cb
            engine
            (gateway json disintegrate)
            partition
            "subscribe"
            msg
            s
          ≡ some out)
        × (post_controls control_router out.1 ≡ some m)
        × ((c : Session) → m c ≡ subscribe_stream (stream_of symbol p) c)
        × (on_frame json disintegrate update out.0.symbol_to_dest_topics ≡ some es)
        × ((x : String)
            → sends x es ≡ (
                if topic == x || contains x (topics_of s.symbol_to_dest_topics (key_of symbol p))
                then 1
                else 0))
  unfolding process
  subscriber_gets_prices partition fsm msg topic symbol p s update obj g q f h v c r k =
      let key = key_of symbol p in
      let t = (handle_book_keeping key topic true s.symbol_to_dest_topics).0 in
      let (table, posts) = routed partition fsm true topic symbol p s g c h in
      (
        route engine partition fsm key topic true s,
        (subscribe_stream (stream_of symbol p) >> idle) >> idle,
        on_price_data (gateway json disintegrate) key (update_of (update_for json p symbol obj)) t,
        msg_cb-route engine json disintegrate partition fsm true msg topic symbol p s f q,
        posts,
        idle_after (subscribe_stream (stream_of symbol p)),
        rw table (on_frame_lem json disintegrate symbol p update obj t g r k),
        subscribed_table topic symbol p update obj s v g r,
      )
