-- ===== src/Binance/Bodies.antt =====
-- MDGateways/Binance/Binance.cpp and RestApi.cpp: from the body of a response to the answer for the
-- platform.
use multi_market_prices.Prelude.{
  ◌≡◌, refl, true, Option, none, some, [], ◌∷◌, String, string_eq, string_dec, ◌==◌, if◌then◌else◌,
  is_some, Bool-cases, Option-cases, inl, inr, lookup, assign,
}
use multi_market_prices.Constants.Tags.{Tags, tags_text}
use multi_market_prices.Rest.{JsonLib, RestError, parse_body}
use multi_market_prices.Platform.Requests.{depth}
use multi_market_prices.Binance.{Json, Object, and_then}
use multi_market_prices.Binance.Snapshots.{
  depth_handler, trade_handler, on_snapshot, on_depth, on_trade, respond_snapshot,
}

-- The JSON library as the REST client uses it.
abbrev pub rest_lib : {V : Type 0} → Json V → JsonLib (Object V) V
rest_lib json = record {
  empty = [];
  parse_object = λ body. and_then (json.parse body) json.as_object;
  find = λ name obj. lookup name obj;
  of_object = json.of_object;
  single = λ name v. (name, v) ∷ [];
}

-- The object that the body of a response is, unless it has symbols.
abbrev pub body_object : {V : Type 0} → Json V → String → Option (Object V)
body_object json body =
    if body == ""
    then none
    else and_then (and_then (json.parse body) json.as_object)
        (λ obj. if is_some (lookup "symbols" obj) then none else some obj)

-- Of the JSON library: an object is its own value, and a null and an object are no other kind of value.
pub record IsJson {V : Type 0} (json : Json V) : Type 0 where
  pub object_kept : (obj : Object V) → json.as_object (json.of_object obj) ≡ some obj
  pub object_array : (obj : Object V) → json.as_array (json.of_object obj) ≡ none
  pub null_object : json.as_object json.null ≡ none
  pub null_array : json.as_array json.null ≡ none

module _ {V : Type 0} (json : Json V) (message : RestError → String) where
  abbrev result_of : Option (Object V) → Object V
  result_of none = []
  result_of (some obj) = ("data", json.of_object obj) ∷ []

  depth_of :
      (laws : IsJson json) (symbol : String) (o : Option (Object V))
      → respond_snapshot json message (depth_handler symbol) (result_of o) none
        ≡ and_then o (λ obj. some (
          true,
          depth (json.serialize (assign (tags_text Tags.symbol) (json.of_string symbol) obj)),
        ))
  unfolding respond_snapshot on_snapshot on_depth lookup string_dec
  depth_of laws symbol none = rw (laws.null_object, respond_snapshot, on_snapshot, on_depth) refl
  depth_of laws symbol (some obj) =
      rw (laws.object_kept obj, respond_snapshot, on_snapshot, on_depth) refl

  trade_of :
      (laws : IsJson json) (symbol : String) (o : Option (Object V))
      → respond_snapshot json message (trade_handler symbol) (result_of o) none ≡ none
  unfolding respond_snapshot on_snapshot on_trade lookup string_dec
  trade_of laws symbol none = rw (laws.null_array, respond_snapshot, on_snapshot, on_trade) refl
  trade_of laws symbol (some obj) =
      rw (laws.object_array obj, respond_snapshot, on_snapshot, on_trade) refl

  symbols_of :
      (laws : IsJson json) (symbol : String) (list : V)
      → (respond_snapshot json message (depth_handler symbol) (("symbols", list) ∷ []) none ≡ none)
        × (respond_snapshot json message (trade_handler symbol) (("symbols", list) ∷ []) none
            ≡ none)
  unfolding respond_snapshot on_snapshot on_depth on_trade lookup string_dec
  symbols_of laws symbol list = (
    rw (laws.null_object, respond_snapshot, on_snapshot, on_depth) refl,
    rw (laws.null_array, respond_snapshot, on_snapshot, on_trade) refl,
  )

  -- With a JSON library in which an object is its own value and a null and an object are no other
  -- kind of value, for every body that the REST client reads without an error: a request for a depth
  -- is answered exactly if the body is an object without symbols, with one response, the last, that
  -- holds this object with the symbol; a request for a trade is never answered, since the handler
  -- always throws.
  pub respond_snapshot-parse_body :
      (laws : IsJson json) (symbol body : String)
      → (respond_snapshot json message (depth_handler symbol) (parse_body (rest_lib json) body) none
          ≡ and_then (body_object json body) (λ obj. some (
            true,
            depth (json.serialize (assign (tags_text Tags.symbol) (json.of_string symbol) obj)),
          )))
        × (respond_snapshot json message
              (trade_handler symbol)
              (parse_body (rest_lib json) body)
              none
            ≡ none)
  unfolding parse_body
  respond_snapshot-parse_body laws symbol body = elim (Bool-cases (body == "")) [
    | inl e ↦ rw e (depth_of laws symbol none, trade_of laws symbol none)
    | inr e ↦ elim (Option-cases (and_then (json.parse body) json.as_object)) [
      | inl f ↦ rw (e, f) (depth_of laws symbol none, trade_of laws symbol none)
      | inr (obj, f) ↦ elim (Option-cases (lookup "symbols" obj)) [
        | inl g ↦
            rw (e, f) (rw g (depth_of laws symbol (some obj), trade_of laws symbol (some obj)))
        | inr (list, g) ↦ rw (e, f) (rw g (symbols_of laws symbol list))
      ]
    ]
  ]
