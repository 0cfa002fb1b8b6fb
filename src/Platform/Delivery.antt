-- ===== src/Platform/Delivery.antt =====
-- MDGateways/PlatformComm/PlatformComm.cpp: prices from the exchange on their way to the topics, and
-- the requests for snapshots.
use multi_market_prices.Prelude.{
  ℕ, suc, ◌≡◌, refl, true, false, none, some, List, [], ◌∷◌, ◌++◌, String, string_eq, string_dec,
  ◌==◌, if◌then◌else◌, lookup, contains, count, count_of_IsDistinct, All, arith, ◌∙◌,
}
use multi_market_prices.Partition.{Engine, sub_unsub_key, process, operational, null}
use multi_market_prices.Platform.{
  Gateway, Payload, text, object, PlatformEffect, produce, Routes, Platform, controls, route,
}
use multi_market_prices.Platform.Routing.{topics_of, IsRouted, handle_book_keeping_lem}

pub data Update : Type 0 where
  trade_update depth_update : String → Update
  price_blanking : Update

-- The loop over the topics of a key.
unfoldable pub produce_each : List String → String → String → Payload → List PlatformEffect
produce_each [] msg_type key payload = []
produce_each (topic ∷ topics) msg_type key payload =
    produce topic msg_type key payload ∷ produce_each topics msg_type key payload

module _ {Obj : Type 0} (lib : Gateway Obj) where
  unfoldable pub blank : String → List String → List PlatformEffect
  unfolding produce_each
  blank key topics =
      let (symbol, type, exchange) = lib.disintegrate key in
      produce_each topics "price_blanked" "NULL"
        (object (("symbol", symbol) ∷ ("type", type) ∷ ("exchange", exchange) ∷ []))

  unfoldable pub blank_all : Routes → List PlatformEffect
  unfolding blank
  blank_all [] = []
  blank_all ((key, topics) ∷ t) = blank key topics ++ blank_all t

  -- What the topics of one key get.
  unfoldable pub publish : String → List String → Update → List PlatformEffect
  unfolding produce_each blank
  publish key topics (trade_update u) = produce_each topics "trade_update" key (text u)
  publish key topics (depth_update u) = produce_each topics "depth_update" key (text u)
  publish key topics price_blanking = blank key topics

  -- The wild card stands for every key, and only blanking is for every key.
  abbrev pub on_wild_card : Update → Routes → List PlatformEffect
  unfolding blank_all
  on_wild_card price_blanking t = blank_all t
  on_wild_card u t = []

  -- `onPriceDataFromExchange`
  unfoldable pub on_price_data : String → Update → Routes → List PlatformEffect
  unfolding blank_all publish string_dec
  on_price_data key u t =
      if key == "*"
      then on_wild_card u t
      else elim (lookup key t) [ none ↦ [] | some topics ↦ publish key topics u ]

-- How often a topic gets a message.
unfoldable pub sends : String → List PlatformEffect → ℕ
sends x [] = 0
sends x (produce topic msg_type key payload ∷ es) =
    if topic == x then suc (sends x es) else sends x es
sends x (_ ∷ es) = sends x es

-- A message of this type, key and payload.
abbrev pub IsMessage : String → String → Payload → PlatformEffect → Type 0
IsMessage m k p (produce topic msg_type key payload) = (msg_type ≡ m) × (key ≡ k) × (payload ≡ p)
IsMessage m k p _ = ⊥

sends-produce_each :
    (x : String) (topics : List String) (m k : String) (p : Payload)
    → sends x (produce_each topics m k p) ≡ count x topics
unfolding sends produce_each count
sends-produce_each x [] m k p = refl
sends-produce_each x (topic ∷ topics) m k p = ground (arith, sends-produce_each x topics m k p)

IsMessage-produce_each :
    (topics : List String) (m k : String) (p : Payload)
    → All (IsMessage m k p) (produce_each topics m k p)
unfolding produce_each
IsMessage-produce_each [] m k p = tt
IsMessage-produce_each (topic ∷ topics) m k p =
    ((refl, refl, refl), IsMessage-produce_each topics m k p)

module _ {Obj : Type 0} (lib : Gateway Obj) where
  -- The type, the key and the payload of the messages that an update of a key makes.
  abbrev pub message_of : String → Update → String × String × Payload
  message_of key (trade_update u) = ("trade_update", key, text u)
  message_of key (depth_update u) = ("depth_update", key, text u)
  message_of key price_blanking = (
    "price_blanked",
    "NULL",
    object (
        ("symbol", (lib.disintegrate key).0)
        ∷ ("type", (lib.disintegrate key).1)
        ∷ ("exchange", (lib.disintegrate key).2)
        ∷ []),
  )

  publish_lem :
      (key : String) (topics : List String) (u : Update)
      → publish lib key topics u
        ≡ produce_each topics (message_of key u).0 (message_of key u).1 (message_of key u).2
  unfolding publish blank
  publish_lem key topics (trade_update u) = refl
  publish_lem key topics (depth_update u) = refl
  publish_lem key topics price_blanking = refl

  on_price_data-produce_each :
      (key : String) (u : Update) (t : Routes)
      → (key == "*") ≡ false
      → on_price_data lib key u t
        ≡ produce_each
            (topics_of t key)
            (message_of key u).0
            (message_of key u).1
            (message_of key u).2
  unfolding on_price_data produce_each
  on_price_data-produce_each key u t h = ground (arith, h, publish_lem key (topics_of t key) u)

  -- On a well-formed table an update of a key other than the wild card reaches each topic of the key
  -- exactly once and no other topic, and every message has the type of the update, its key and its
  -- payload.
  pub on_price_data_lem :
      (key : String) (u : Update) (t : Routes)
      → IsRouted t
      → (key == "*") ≡ false
      → ((x : String)
          → sends x (on_price_data lib key u t) ≡ (if contains x (topics_of t key) then 1 else 0))
        × All
            (IsMessage (message_of key u).0 (message_of key u).1 (message_of key u).2)
            (on_price_data lib key u t)
  on_price_data_lem key u t v h = rw (on_price_data-produce_each key u t h) (
    (λ x. ground (
      arith,
      sends-produce_each x (topics_of t key) (message_of key u).0 (message_of key u).1
          (message_of key u).2,
      count_of_IsDistinct x (topics_of t key) (v.distinct key),
    )),
    IsMessage-produce_each (topics_of t key) (message_of key u).0 (message_of key u).1
        (message_of key u).2,
  )

module _ {F : Type 0} (engine : Engine F) where
  -- When one of several topics of a key unsubscribes, the other stays a topic of the key, but the
  -- partition's machine is told that the key is unsubscribed, and in its operational state it
  -- asks the gateway to unsubscribe the key.
  unsubscribe_starves :
      (partition : ℕ) (fsm : F) (key gone stays : String) (s : Platform F)
      → contains gone (topics_of s.symbol_to_dest_topics key) ≡ true
      → contains stays (topics_of s.symbol_to_dest_topics key) ≡ true
      → (gone == stays) ≡ false
      → let out = route engine partition fsm key gone false s in
        (contains stays (topics_of out.0.symbol_to_dest_topics key) ≡ true)
        × ((rest : List PlatformEffect) × (out.1
              ≡ controls (engine.handle_event fsm (sub_unsub_key key false)).1 ++ rest))
        × (process operational (sub_unsub_key key false) ≡ (null, (key, false) ∷ []))
  unfolding route process
  unsubscribe_starves partition fsm key gone stays s g t n =
      let told = handle_book_keeping_lem s.symbol_to_dest_topics key gone false key stays in
      rw (told.1 ∙ g) (ground (arith, told.0), (_, refl), refl)
