-- ===== src/Binance/Trades.antt =====
-- MDGateways/Binance/Binance.cpp, `transformTradeForPlatForm`: what becomes of the fields of a trade.
use multi_market_prices.Prelude.{
  ◌≡◌, refl, ap, ◌∙◌, true, ◌&&◌, Option, none, some, String, string_eq, string_dec, ◌==◌,
  if◌then◌else◌, is_some, lookup, remove, lookup-assign, lookup-remove, arith, Bool-cases, inl, inr,
}
use multi_market_prices.Binance.{Json, Object, BinanceTag, binance_tag_text}
use multi_market_prices.Binance.Prices.{
  has, at_or_null, copy_to, erase_all, transform_trade_for_platform,
}

module _ {V : Type 0} (json : Json V) where
  at_or_null_lem :
      (tag : BinanceTag) (obj : Object V)
      → has tag obj ≡ true
      → some (at_or_null json (binance_tag_text tag) obj) ≡ lookup (binance_tag_text tag) obj
  at_or_null_lem tag obj h = ground (arith, h)

  lookup-copy_to :
      (name : String) (tag : BinanceTag) (obj : Object V) (i : String)
      → has tag obj ≡ true
      → lookup i (copy_to json name tag obj)
        ≡ (if name == i then lookup (binance_tag_text tag) obj else lookup i obj)
  lookup-copy_to name tag obj i h =
      rw
        (
          lookup-assign name i (at_or_null json (binance_tag_text tag) obj) obj,
          at_or_null_lem tag obj h,
        )
        refl

  -- The fields that the platform knows, by the exchange's tags.
  abbrev pub renamed : String → Object V → Option V
  renamed i obj =
      if "quantity" == i
      then lookup "q" obj
      else if "price" == i
      then lookup "p" obj
      else if "symbol" == i
      then lookup "s" obj
      else lookup i obj

  abbrev with_symbol : Object V → Object V
  with_symbol obj = copy_to json "symbol" BinanceTag.symbol_websocket obj

  abbrev with_price : Object V → Object V
  with_price obj = copy_to json "price" BinanceTag.price (with_symbol obj)

  abbrev with_quantity : Object V → Object V
  with_quantity obj = copy_to json "quantity" BinanceTag.quantity (with_price obj)

  price_kept :
      (obj : Object V)
      → has BinanceTag.symbol_websocket obj ≡ true
      → lookup "p" (with_symbol obj) ≡ lookup "p" obj
  unfolding string_dec
  price_kept obj s = lookup-copy_to "symbol" BinanceTag.symbol_websocket obj "p" s

  quantity_kept :
      (obj : Object V)
      → has BinanceTag.symbol_websocket obj ≡ true
      → has BinanceTag.price (with_symbol obj) ≡ true
      → lookup "q" (with_price obj) ≡ lookup "q" obj
  unfolding string_dec
  quantity_kept obj s p =
      lookup-copy_to "price" BinanceTag.price (with_symbol obj) "q" p
      ∙ lookup-copy_to "symbol" BinanceTag.symbol_websocket obj "q" s

  lookup-with_quantity :
      (obj : Object V) (i : String)
      → has BinanceTag.symbol_websocket obj ≡ true
      → has BinanceTag.price obj ≡ true
      → has BinanceTag.quantity obj ≡ true
      → lookup i (with_quantity obj) ≡ renamed i obj
  lookup-with_quantity obj i s p q =
      let p' = ap is_some (price_kept obj s) ∙ p in
      let q' = ap is_some (quantity_kept obj s p') ∙ q in
      rw
        (
          lookup-copy_to "quantity" BinanceTag.quantity (with_price obj) i q',
          quantity_kept obj s p',
          lookup-copy_to "price" BinanceTag.price (with_symbol obj) i p',
          price_kept obj s,
          lookup-copy_to "symbol" BinanceTag.symbol_websocket obj i s,
        )
        refl

  lookup-erase_all :
      (obj : Object V) (i : String)
      → lookup i (erase_all json obj) ≡ (
          if "q" == i
          then none
          else if "p" == i
          then none
          else if "s" == i
          then none
          else lookup i obj)
  lookup-erase_all obj i =
      rw
        (
          lookup-remove "q" i (remove "p" (remove "s" obj)),
          lookup-remove "p" i (remove "s" obj),
          lookup-remove "s" i obj,
        )
        refl

  -- A trade is transformed exactly if it has the exchange's symbol, price and quantity. Then these
  -- stand under the platform's names, nothing is left under the exchange's, and every other field is
  -- as it was; otherwise the object stays as it is.
  pub transform_trade_lem :
      (symbol : String) (obj : Object V) (i : String)
      → let complete =
          has BinanceTag.symbol_websocket obj
          && has BinanceTag.price obj
          && has BinanceTag.quantity obj in
        let result = transform_trade_for_platform json symbol obj in
        (result.1 ≡ complete)
        × (lookup i result.0 ≡ (
            if complete
            then (if "q" == i
                then none
                else if "p" == i
                then none
                else if "s" == i
                then none
                else renamed i obj)
            else lookup i obj))
  unfolding transform_trade_for_platform
  transform_trade_lem symbol obj i = elim (Bool-cases (has BinanceTag.symbol_websocket obj)) [
    | inr s ↦ rw s (refl, refl)
    | inl s ↦ elim (Bool-cases (has BinanceTag.price obj)) [
      | inr p ↦ rw (s, p) (refl, refl)
      | inl p ↦ elim (Bool-cases (has BinanceTag.quantity obj)) [
        | inr q ↦ rw (s, p, q) (refl, refl)
        | inl q ↦
            rw (s, p, q)
              (
                refl,
                rw (lookup-erase_all (with_quantity obj) i, lookup-with_quantity obj i s p q) refl,
              )
      ]
    ]
  ]
