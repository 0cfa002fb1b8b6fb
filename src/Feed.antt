-- ===== src/Feed.antt =====
-- MDGateways/MDGatewayRouterConfig.h with what hangs on it at both ends: Binance.cpp, which produces
-- updates and listens to commands, and PlatformComm.cpp, which listens to updates and produces
-- commands. The two routers are those of CrazyRouters.hpp. What a listener posts to another thread
-- is run in the order of the posts, with the table of the topics as it is then.
pub mod Prices
pub mod Subscribing
pub mod Serving
pub mod Starving
mod Tests
use multi_market_prices.Prelude.{
  ℕ, Bool, Option, none, some, List, [], ◌∷◌, ◌++◌, String, string_eq, nat_eq, Map, lookup,
}
use multi_market_prices.Binance.{
  Json, Object, and_then, generate_key_from_sub_unsub_request, on_control,
}
use multi_market_prices.Binance.Prices.{MdUpdate, on_price_update}
use multi_market_prices.Platform.{Gateway, PlatformEffect, control, Routes}
use multi_market_prices.Platform.Delivery.{Update, trade_update, depth_update, on_price_data}
use multi_market_prices.Router.PubSub.{
  PubSubDataRouter, Call, data_call, keyed_call, init, produce, consume_every_thing,
}
use multi_market_prices.Session.{M, ◌>>◌}

-- `MDKeyedUpdateCallback`, as what it makes of the table of the topics, and
-- `MDKeyedControlCallback`, as what it posts to the session; nothing registers the callbacks of
-- single keys.
abbrev pub UpdateCallback : Type 0
UpdateCallback = String → Update → Routes → List PlatformEffect

abbrev pub ControlCallback : Type 0
ControlCallback = String → Bool → Option M

abbrev pub UpdateRouter : Type 0
UpdateRouter = PubSubDataRouter String ℕ (Unit {0}) UpdateCallback

abbrev pub ControlRouter : Type 0
ControlRouter = PubSubDataRouter String ℕ (Unit {0}) ControlCallback

abbrev pub update_of : MdUpdate → Update
update_of (MdUpdate.trade_update s) = trade_update s
update_of (MdUpdate.depth_update s) = depth_update s

-- The callbacks that `produce` runs, one after the other.
unfoldable pub run_updates :
    List (Call String ℕ (Unit {0}) UpdateCallback Update) → Routes → List PlatformEffect
run_updates [] t = []
run_updates (data_call _ _ _ ∷ calls) t = run_updates calls t
run_updates (keyed_call _ callback key u ∷ calls) t = callback key u t ++ run_updates calls t

abbrev pub idle : M
idle s = (s, [])

abbrev pub and_post : Option M → Option M → Option M
and_post none n = none
and_post (some m) none = none
and_post (some m) (some n) = some (m >> n)

unfoldable pub run_controls : List (Call String ℕ (Unit {0}) ControlCallback Bool) → Option M
run_controls [] = some idle
run_controls (data_call _ _ _ ∷ calls) = run_controls calls
run_controls (keyed_call _ callback key is_sub ∷ calls) =
    and_post (callback key is_sub) (run_controls calls)

-- The calls of `produceControl` among the effects of the platform's side.
unfoldable pub post_controls : ControlRouter → List PlatformEffect → Option M
unfolding run_controls produce
post_controls r [] = some idle
post_controls r (control key is_sub ∷ es) =
    and_post (run_controls (produce r key is_sub).1) (post_controls r es)
post_controls r (_ ∷ es) = post_controls r es

-- `consumeAllControl` of `onGatewayConnected`
abbrev pub binance_id : ℕ
binance_id = 1

unfoldable pub control_router : ControlRouter
unfolding consume_every_thing on_control
control_router = (consume_every_thing init binance_id on_control).0

abbrev pub platform_comm_id : ℕ
platform_comm_id = 0

module _ {V : Type 0} (json : Json V) (disintegrate : String → String × String × String) where
  -- What `initMiddleware` hands to the platform's side, which reads JSON with the same library.
  abbrev pub gateway : Gateway (Object V)
  gateway = record {
    parse_object = λ s. and_then (json.parse s) json.as_object;
    text_at = λ tag obj. and_then (lookup tag obj) json.as_string;
    key_gen = λ is_sub obj. generate_key_from_sub_unsub_request json obj;
    disintegrate = disintegrate;
  }

  -- `consumeAllUpdate` of `PlatformComm::init`
  unfoldable pub update_router : UpdateRouter
  unfolding consume_every_thing on_price_data
  update_router = (consume_every_thing init platform_comm_id (on_price_data gateway)).0

  -- A frame of the exchange, through `onPriceUpdate` and `produceUpdate`.
  unfoldable pub on_frame : String → Routes → Option (List PlatformEffect)
  unfolding on_price_update update_router run_updates produce
  on_frame update t = elim (on_price_update json update) [
    | none ↦ none
    | some call ↦ elim call [
      | none ↦ some []
      | some produced ↦
          some (run_updates (produce update_router produced.0 (update_of produced.1)).1 t)
    ]
  ]
