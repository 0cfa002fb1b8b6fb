-- ===== src/Router/PubSub/Histories.antt =====
-- CrazyRouters.hpp, `PubSubDataRouter`: any sequence of its public operations, against the abstract
-- view of a router as a function from key and subscriber to callback.
use multi_market_prices.Prelude.{
  ◌≡◌, refl, Bool, ◌&&◌, not, Option, none, some, List, [], ◌∷◌, Eq, ◌==◌, arith, if◌then◌else◌,
  is_some,
}
use multi_market_prices.Router.PubSub.{
  PubSubDataRouter, init, consume, consume_every_thing, unregister_from_everything, unregister,
  unregister_all,
}
use multi_market_prices.Router.PubSub.Views.{subscription, subscription-consume, consume-fresh}
use multi_market_prices.Router.PubSub.Invariant.{
  IsConsistent, init-IsConsistent, consume-IsConsistent,
}
use multi_market_prices.Router.PubSub.Unregister.{
  unregister_found, subscription-unregister, unregister-IsConsistent,
  unregister_from_everything-IsConsistent, consume_every_thing-IsConsistent,
  unregister_all-IsConsistent, subscription-unregister_all,
}

pub data Command (K S C KC : Type 0) : Type 0 where
  consumes : K → S → C → Command K S C KC
  consumes_every_thing : S → KC → Command K S C KC
  unregisters : K → S → Command K S C KC
  unregisters_all unregisters_from_everything : S → Command K S C KC

module _ {K S C KC : Type 0} ⦃eK : Eq K⦄ ⦃eS : Eq S⦄ where
  unfoldable pub step :
      PubSubDataRouter K S C KC → Command K S C KC → PubSubDataRouter K S C KC × Bool
  step r (consumes k s c) = consume r k s c
  step r (consumes_every_thing s c) = consume_every_thing r s c
  step r (unregisters k s) = unregister r k s
  step r (unregisters_all s) = unregister_all r s
  step r (unregisters_from_everything s) = unregister_from_everything r s

  unfoldable pub run :
      PubSubDataRouter K S C KC → List (Command K S C KC) → PubSubDataRouter K S C KC
  run r [] = r
  run r (c ∷ cs) = run (step r c).0 cs

  pub step-IsConsistent :
      (r : PubSubDataRouter K S C KC) (cmd : Command K S C KC)
      → IsConsistent r
      → IsConsistent (step r cmd).0
  unfolding step
  step-IsConsistent r (consumes k s c) v = consume-IsConsistent r v k s c
  step-IsConsistent r (consumes_every_thing s c) v = consume_every_thing-IsConsistent r v s c
  step-IsConsistent r (unregisters k s) v = unregister-IsConsistent r v k s
  step-IsConsistent r (unregisters_all s) v = unregister_all-IsConsistent r v s
  step-IsConsistent r (unregisters_from_everything s) v =
      unregister_from_everything-IsConsistent r v s

  run_from-IsConsistent :
      (r : PubSubDataRouter K S C KC) (cs : List (Command K S C KC))
      → IsConsistent r
      → IsConsistent (run r cs)
  unfolding run
  run_from-IsConsistent r [] v = v
  run_from-IsConsistent r (c ∷ cs) v =
      run_from-IsConsistent (step r c).0 cs (step-IsConsistent r c v)

  -- After any sequence of consume, consumeEveryThing, unregister, unregisterAll and
  -- unregisterFromEverything on a new router, the routing table and the book of keys record the same
  -- subscriptions, neither keeps an empty entry, and no subscriber is entered twice under a key or
  -- among the subscribers of everything.
  pub run-IsConsistent : (cs : List (Command K S C KC)) → IsConsistent (run init cs)
  run-IsConsistent cs = run_from-IsConsistent init cs init-IsConsistent

  -- What a command does to the abstract view.
  abbrev pub ideal : (K → S → Option C) → Command K S C KC → K → S → Option C
  ideal f (consumes key id c) k s =
      if key == k && id == s then (if is_some (f k s) then f k s else some c) else f k s
  ideal f (consumes_every_thing id c) k s = f k s
  ideal f (unregisters key id) k s = if key == k && id == s then none else f k s
  ideal f (unregisters_all id) k s = if id == s then none else f k s
  ideal f (unregisters_from_everything id) k s = f k s

  subscription-consumes :
      (r : PubSubDataRouter K S C KC) (key k : K) (id s : S) (c : C)
      → subscription (consume r key id c).0 k s ≡ (
          if key == k && id == s
          then (if is_some (subscription r k s) then subscription r k s else some c)
          else subscription r k s)
  subscription-consumes r key k id s c =
      ground (arith, subscription-consume r key k id s c, consume-fresh r key id c)

  -- On a router whose tables are consistent, each command changes the subscriptions as the abstract
  -- view says, for every key and every subscriber: the first callback registered stays, unregister
  -- removes that subscription alone, unregisterAll those of one subscriber alone.
  pub subscription-step :
      (r : PubSubDataRouter K S C KC) (cmd : Command K S C KC)
      → IsConsistent r
      → (k : K) (s : S) → subscription (step r cmd).0 k s ≡ ideal (subscription r) cmd k s
  unfolding step consume_every_thing unregister_from_everything subscription
  subscription-step r (consumes key id c) v k s = subscription-consumes r key k id s c
  subscription-step r (consumes_every_thing id c) v k s = ground arith
  subscription-step r (unregisters key id) v k s = subscription-unregister r v key id k s
  subscription-step r (unregisters_all id) v k s = subscription-unregister_all r v id k s
  subscription-step r (unregisters_from_everything id) v k s = refl

  -- On a consistent router consume reports success exactly where there was no such subscription, and
  -- unregister exactly where there was one.
  pub step_reports :
      (r : PubSubDataRouter K S C KC) (key : K) (id : S) (c : C)
      → IsConsistent r
      → ((consume r key id c).1 ≡ not (is_some (subscription r key id)))
        × ((unregister r key id).1 ≡ is_some (subscription r key id))
  step_reports r key id c v = (consume-fresh r key id c, unregister_found r v key id)
