-- ===== src/Feed/Prices.antt =====
-- Binance.cpp, CrazyRouters.hpp and PlatformComm.cpp together: a price on its way from the exchange
-- to the topics.
use mathlib.Core.List.{append-nil}
use mathlib.Core.Path.{subst}
use multi_market_prices.Prelude.{
  ◌≡◌, refl, ap, ◌∙◌, true, false, none, some, List, [], String, string_eq, Bool-cases, inl, inr,
  eq_of_==, pieces, nat_dec, nat_eq, ◌==◌, if◌then◌else◌, lookup, All, assign,
}
use multi_market_prices.Constants.Market.{PriceType}
use multi_market_prices.Binance.{Json, Object, key_disintegration}
use multi_market_prices.Binance.Prices.{transform_trade_for_platform, transform_depth_for_platform}
use multi_market_prices.Binance.Streams.{
  key_of, stream_of, IsSymbol, IsFrame, is_complete, update_for, stream_round_trip,
}
use multi_market_prices.Platform.{PlatformEffect, text, Routes}
use multi_market_prices.Platform.Routing.{Book, keep_books, last_word, keep_books-last_word}
use multi_market_prices.Platform.Delivery.{
  Update, on_price_data, sends, IsMessage, message_of, on_price_data_lem,
}
use multi_market_prices.Router.PubSub.{produce, consume_every_thing}
use multi_market_prices.Feed.{gateway, update_of, update_router, run_updates, on_frame}

-- The type of the message for a price.
abbrev pub update_type : PriceType → String
update_type PriceType.trade = "trade_update"
update_type PriceType.depth = "depth_update"

no_parts : key_disintegration "*" ≡ none
unfolding key_disintegration nat_dec pieces
no_parts = refl

module _ {V : Type 0} (json : Json V) (disintegrate : String → String × String × String) where
  -- The update router has one listener, the platform's.
  run_updates-produce :
      (key : String) (u : Update) (t : Routes)
      → run_updates (produce (update_router json disintegrate) key u).1 t
        ≡ on_price_data (gateway json disintegrate) key u t
  unfolding run_updates produce update_router consume_every_thing lookup assign
  run_updates-produce key u t = append-nil (on_price_data (gateway json disintegrate) key u t)

  pub no_star :
      (symbol : String) (p : PriceType) (update : String) (obj : Object V)
      → IsSymbol symbol
      → IsFrame json update (stream_of symbol p) obj
      → (key_of symbol p == "*") ≡ false
  no_star symbol p update obj s f = elim (Bool-cases (key_of symbol p == "*")) [
    | inl e ↦ cc (
      (stream_round_trip json symbol p update obj s f).0,
      ap key_disintegration (eq_of_== (key_of symbol p) "*" e),
      no_parts,
    )
    | inr e ↦ e
  ]

  -- The content of the message for a frame.
  abbrev pub content_of : String → PriceType → Object V → String
  content_of symbol PriceType.trade obj =
      json.serialize (transform_trade_for_platform json symbol obj).0
  content_of symbol PriceType.depth obj =
      json.serialize (transform_depth_for_platform json symbol obj).0

  described :
      (symbol : String) (p : PriceType) (obj : Object V)
      → message_of
          (gateway json disintegrate)
          (key_of symbol p)
          (update_of (update_for json p symbol obj))
        ≡ (update_type p, key_of symbol p, text (content_of symbol p obj))
  described symbol PriceType.trade obj = refl
  described symbol PriceType.depth obj = refl

  pub on_frame_lem :
      (symbol : String) (p : PriceType) (update : String) (obj : Object V) (t : Routes)
      → IsSymbol symbol
      → IsFrame json update (stream_of symbol p) obj
      → is_complete json p obj ≡ true
      → on_frame json disintegrate update t
        ≡ some (
            on_price_data
              (gateway json disintegrate)
              (key_of symbol p)
              (update_of (update_for json p symbol obj))
              t)
  unfolding on_frame
  on_frame_lem symbol p update obj t s f c =
      rw ((stream_round_trip json symbol p update obj s f).3, c, on_frame)
        (ap (λ es. some es)
          (run_updates-produce (key_of symbol p) (update_of (update_for json p symbol obj)) t))

module _ {V : Type 0} (json : Json V) (disintegrate : String → String × String × String) where
  -- For a symbol in capitals without a colon or an at sign, and the table of the topics that any
  -- sequence of messages to the gateway made of an empty one: a frame of the stream of a price with
  -- a complete content is sent exactly once to each topic whose last message about the price's key
  -- was a subscription, and to no other topic; and all that is sent has the type of the price, its
  -- key and the transformed content.
  pub frame_reaches_topics :
      (symbol : String) (p : PriceType) (update : String) (obj : Object V) (books : List Book)
      → IsSymbol symbol
      → IsFrame json update (stream_of symbol p) obj
      → is_complete json p obj ≡ true
      → let key = key_of symbol p in
        (es : List PlatformEffect) × (on_frame json disintegrate update (keep_books books [])
          ≡ some es)
        × ((x : String) → sends x es ≡ (if last_word books key x false then 1 else 0))
        × All
            (IsMessage
              (update_type p)
              (key_of symbol p)
              (text (content_of json disintegrate symbol p obj)))
            es
  frame_reaches_topics symbol p update obj books s f c =
      let t = keep_books books [] in
      let u = update_of (update_for json p symbol obj) in
      let (once, all) =
        on_price_data_lem (gateway json disintegrate) (key_of symbol p) u t
          (keep_books-last_word books "" "").1
          (no_star json disintegrate symbol p update obj s f) in
      (
        on_price_data (gateway json disintegrate) (key_of symbol p) u t,
        on_frame_lem json disintegrate symbol p update obj t s f c,
        λ x.
            once x
            ∙ ap (λ b. if b then 1 else 0) (keep_books-last_word books (key_of symbol p) x).0,
        subst
            (λ m.
              All (IsMessage m.0 m.1 m.2)
                (on_price_data (gateway json disintegrate) (key_of symbol p) u t))
            (described json disintegrate symbol p obj) all,
      )
