-- ===== src/Binance/Streams.antt =====
-- MDGateways/Binance/Binance.cpp: from the key of a price to the stream at the exchange, and back.
use Prim.Native.String
use multi_market_prices.Prelude.{
  ◌≡◌, refl, ap, ◌∙◌, Bool, true, ◌&&◌, none, some, [], ◌∷◌, String, string_eq, string_dec, nat_dec,
  if◌then◌else◌, lookup, split, pieces, to_lower, to_upper, occurs, lacks, chr, split-append,
  lacks-to_lower, to_upper-to_lower, arith,
}
use multi_market_prices.Constants.Market.{PriceType, price_type_text}
use multi_market_prices.Constants.Reading.{str_to_price_type}
use multi_market_prices.Session.Commands.{subscribe_stream, unsubscribe_stream}
use multi_market_prices.Binance.{
  Json, Object, BinanceTag, binance_tag_text, and_then, key_text, exchange_id, key_disintegration,
  command, subscribe, unsubscribe,
}
use multi_market_prices.Binance.Prices.{
  MdUpdate, trade_update, depth_update, has, transform_trade_for_platform,
  transform_depth_for_platform, publish_stream, on_price_update,
}

-- What the session appends to the symbol.
abbrev pub suffix : PriceType → String
suffix PriceType.trade = "@trade"
suffix PriceType.depth = "@depth5"

-- The key of a symbol's price, and the exchange's stream for it.
abbrev pub key_of : String → PriceType → String
key_of symbol p = key_text symbol (price_type_text p)

abbrev pub stream_of : String → PriceType → String
stream_of symbol p = String.◌++◌ (to_lower symbol) (suffix p)

-- A symbol in capitals that the separators do not occur in.
abbrev pub IsSymbol : String → Type 0
IsSymbol symbol =
    (to_upper symbol ≡ symbol) × (lacks b':' symbol ≡ true) × (lacks b'@' symbol ≡ true)

split-key_of :
    (symbol : String) (p : PriceType)
    → IsSymbol symbol
    → split b':' (key_of symbol p) ≡ symbol ∷ price_type_text p ∷ []
unfolding pieces nat_dec chr
split-key_of symbol PriceType.trade (u, c, a) = split-append b':' symbol (chr b':') "trade" c refl
split-key_of symbol PriceType.depth (u, c, a) = split-append b':' symbol (chr b':') "depth" c refl

abbrev stream_name : PriceType → String
stream_name PriceType.trade = "trade"
stream_name PriceType.depth = "depth5"

split-stream_of :
    (symbol : String) (p : PriceType)
    → IsSymbol symbol
    → split b'@' (stream_of symbol p) ≡ to_lower symbol ∷ stream_name p ∷ []
unfolding pieces nat_dec chr
split-stream_of symbol PriceType.trade (u, c, a) =
    split-append b'@' (to_lower symbol) (chr b'@') "trade"
      (lacks-to_lower b'@' symbol (ground arith) a) refl
split-stream_of symbol PriceType.depth (u, c, a) =
    split-append b'@' (to_lower symbol) (chr b'@') "depth5"
      (lacks-to_lower b'@' symbol (ground arith) a) refl

pub subscribe-key_of :
    (symbol : String) (p : PriceType)
    → IsSymbol symbol
    → subscribe (key_of symbol p) ≡ some (subscribe_stream (stream_of symbol p))
unfolding subscribe command str_to_price_type string_dec
subscribe-key_of symbol PriceType.trade s = rw (split-key_of symbol PriceType.trade s, command) refl
subscribe-key_of symbol PriceType.depth s = rw (split-key_of symbol PriceType.depth s, command) refl

pub unsubscribe-key_of :
    (symbol : String) (p : PriceType)
    → IsSymbol symbol
    → unsubscribe (key_of symbol p) ≡ some (unsubscribe_stream (stream_of symbol p))
unfolding unsubscribe command str_to_price_type string_dec
unsubscribe-key_of symbol PriceType.trade s =
    rw (split-key_of symbol PriceType.trade s, command) refl
unsubscribe-key_of symbol PriceType.depth s =
    rw (split-key_of symbol PriceType.depth s, command) refl

key_disintegration-key_of :
    (symbol : String) (p : PriceType)
    → IsSymbol symbol
    → key_disintegration (key_of symbol p) ≡ some (symbol, price_type_text p, exchange_id)
unfolding key_disintegration
key_disintegration-key_of symbol p s = rw (split-key_of symbol p s, key_disintegration) refl

module _ {V : Type 0} (json : Json V) where
  -- A frame of the exchange: what it parses to has this stream and this content.
  pub record IsFrame (update stream : String) (obj : Object V) : Type 0 where
    pub parsed : V
    pub frame : Object V
    pub content : V
    pub name : V
    pub parses : json.parse update ≡ some parsed
    pub is_frame : json.as_object parsed ≡ some frame
    pub has_content : lookup (binance_tag_text BinanceTag.data_) frame ≡ some content
    pub is_object : json.as_object content ≡ some obj
    pub has_name : lookup (binance_tag_text BinanceTag.stream) frame ≡ some name
    pub is_name : json.as_string name ≡ some stream

  -- The content of a frame of trades has its symbol, price and quantity.
  abbrev pub is_complete : PriceType → Object V → Bool
  is_complete PriceType.trade obj =
      has BinanceTag.symbol_websocket obj && has BinanceTag.price obj && has BinanceTag.quantity obj
  is_complete PriceType.depth obj = true

  abbrev pub update_for : PriceType → String → Object V → MdUpdate
  update_for PriceType.trade symbol obj =
      trade_update (json.serialize (transform_trade_for_platform json symbol obj).0)
  update_for PriceType.depth symbol obj =
      depth_update (json.serialize (transform_depth_for_platform json symbol obj).0)

  publish_stream-stream_name :
      (symbol : String) (p : PriceType) (obj : Object V)
      → publish_stream json symbol (stream_name p) obj
        ≡ (if is_complete p obj then some (key_of symbol p, update_for p symbol obj) else none)
  unfolding publish_stream occurs nat_dec transform_trade_for_platform transform_depth_for_platform
  publish_stream-stream_name symbol PriceType.trade obj = ground arith
  publish_stream-stream_name symbol PriceType.depth obj = refl

  on_price_update-stream_of :
      (symbol : String) (p : PriceType) (update : String) (obj : Object V)
      → IsSymbol symbol
      → IsFrame update (stream_of symbol p) obj
      → on_price_update json update
        ≡ some (if is_complete p obj then some (key_of symbol p, update_for p symbol obj) else none)
  unfolding on_price_update
  on_price_update-stream_of symbol p update obj s f =
      rw (f.parses, f.is_frame, and_then)
        (rw (f.has_content, f.has_name, and_then)
          (rw (f.is_name, and_then)
            (rw (split-stream_of symbol p s, f.is_object, and_then)
              (ap (λ u. some u)
                (ap (λ t. publish_stream json t (stream_name p) obj)
                    (to_upper-to_lower symbol ∙ s.0)
                  ∙ publish_stream-stream_name symbol p obj)))))

  -- For a symbol in capitals without a colon or an at sign, and a price's key `symbol:type`: the
  -- parts of the key are the symbol, the type and the exchange; the two commands on the key
  -- subscribe and unsubscribe one and the same stream, and a frame of this stream whose content is
  -- complete makes the gateway produce, under this very key, an update of the key's type with the
  -- transformed content; with an incomplete content it produces nothing.
  pub stream_round_trip :
      (symbol : String) (p : PriceType) (update : String) (obj : Object V)
      → IsSymbol symbol
      → IsFrame update (stream_of symbol p) obj
      → (key_disintegration (key_of symbol p) ≡ some (symbol, price_type_text p, exchange_id))
        × (subscribe (key_of symbol p) ≡ some (subscribe_stream (stream_of symbol p)))
        × (unsubscribe (key_of symbol p) ≡ some (unsubscribe_stream (stream_of symbol p)))
        × (on_price_update json update
            ≡ some (
                if is_complete p obj
                then some (key_of symbol p, update_for p symbol obj)
                else none))
  stream_round_trip symbol p update obj s f = (
    key_disintegration-key_of symbol p s,
    subscribe-key_of symbol p s,
    unsubscribe-key_of symbol p s,
    on_price_update-stream_of symbol p update obj s f,
  )
