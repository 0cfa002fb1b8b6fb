-- ===== src/Router/PubSub/Views.antt =====
-- CrazyRouters.hpp, `PubSubDataRouter`: what can be read from the tables, and how each private helper
-- changes it.
use multi_market_prices.Prelude.{
  ◌≡◌, ◌≢◌, ◌&&◌, ◌||◌, not, Option, none, some, List, [], ◌∷◌, Eq, ◌==◌, arith, if◌then◌else◌,
  is_some, get_or, Map, lookup, assign, remove, contains, insert, erase, lookup-assign,
  lookup-remove, contains-insert, contains-erase,
}
use multi_market_prices.Router.PubSub.{
  PubSubDataRouter, consume, remove_from_routing_table, remove_from_reg_id_store,
}

module _ {K S C KC : Type 0} ⦃eK : Eq K⦄ ⦃eS : Eq S⦄ where
  -- The subscribers of a key.
  abbrev pub subscribers : PubSubDataRouter K S C KC → K → Map S C
  subscribers r k = get_or (lookup k r.routing_table) []

  -- The callback that a subscriber has under a key.
  unfoldable pub subscription : PubSubDataRouter K S C KC → K → S → Option C
  subscription r k s = lookup s (subscribers r k)

  -- The keys that a subscriber is noted for.
  abbrev pub noted : PubSubDataRouter K S C KC → S → List K
  noted r s = get_or (lookup s r.reg_id_to_keys) []

  pub subscription-consume :
      (r : PubSubDataRouter K S C KC) (key k : K) (id s : S) (c : C)
      → subscription (consume r key id c).0 k s
        ≡ (if (key == k && id == s) && (consume r key id c).1 then some c else subscription r k s)
  unfolding consume lookup subscription
  subscription-consume r key k id s c = ground (
    arith,
    lookup-assign key k (assign id c (subscribers r key)) r.routing_table,
    lookup-assign key k ((id, c) ∷ []) r.routing_table,
    lookup-assign id s c (subscribers r key),
  )

  pub consume-fresh :
      (r : PubSubDataRouter K S C KC) (key : K) (id : S) (c : C)
      → (consume r key id c).1 ≡ not (is_some (subscription r key id))
  unfolding consume lookup subscription
  consume-fresh r key id c = ground arith

  pub noted-consume :
      (r : PubSubDataRouter K S C KC) (key k : K) (id s : S) (c : C)
      → contains k (noted (consume r key id c).0 s)
        ≡ (((key == k && id == s) && (consume r key id c).1) || contains k (noted r s))
  unfolding consume
  noted-consume r key k id s c = ground (
    arith,
    lookup-assign id s (insert key (noted r id)) r.reg_id_to_keys,
    contains-insert key k (noted r id),
  )

  pub subscription-remove_from_routing_table :
      (r : PubSubDataRouter K S C KC) (key k : K) (id s : S)
      → subscription (remove_from_routing_table r key id).0 k s
        ≡ (if key == k && id == s then none else subscription r k s)
  unfolding remove_from_routing_table lookup subscription
  subscription-remove_from_routing_table r key k id s = ground (
    arith,
    lookup-remove key k r.routing_table,
    lookup-assign key k (remove id (subscribers r key)) r.routing_table,
    lookup-remove id s (subscribers r key),
  )

  pub remove_from_routing_table_found :
      (r : PubSubDataRouter K S C KC) (key : K) (id : S)
      → (remove_from_routing_table r key id).1 ≡ is_some (subscription r key id)
  unfolding remove_from_routing_table lookup subscription
  remove_from_routing_table_found r key id = ground arith

  pub reg_id_to_keys-remove_from_routing_table :
      (r : PubSubDataRouter K S C KC) (key : K) (id : S)
      → (remove_from_routing_table r key id).0.reg_id_to_keys ≡ r.reg_id_to_keys
  unfolding remove_from_routing_table
  reg_id_to_keys-remove_from_routing_table r key id = ground arith

  pub everything-remove_from_routing_table :
      (r : PubSubDataRouter K S C KC) (key : K) (id : S)
      → (remove_from_routing_table r key id).0.everything_subscribers ≡ r.everything_subscribers
  unfolding remove_from_routing_table
  everything-remove_from_routing_table r key id = ground arith

  pub noted-remove_from_reg_id_store :
      (r : PubSubDataRouter K S C KC) (key k : K) (id s : S)
      → contains k (noted (remove_from_reg_id_store r key id).0 s)
        ≡ (not (key == k && id == s) && contains k (noted r s))
  unfolding remove_from_reg_id_store contains
  noted-remove_from_reg_id_store r key k id s = ground (
    arith,
    lookup-remove id s r.reg_id_to_keys,
    lookup-assign id s (erase key (noted r id)) r.reg_id_to_keys,
    contains-erase key k (noted r id),
  )

  pub remove_from_reg_id_store_found :
      (r : PubSubDataRouter K S C KC) (key : K) (id : S)
      → (remove_from_reg_id_store r key id).1 ≡ contains key (noted r id)
  unfolding remove_from_reg_id_store contains
  remove_from_reg_id_store_found r key id = ground arith

  pub table-remove_from_reg_id_store :
      (r : PubSubDataRouter K S C KC) (key : K) (id : S)
      → (remove_from_reg_id_store r key id).0.routing_table ≡ r.routing_table
  unfolding remove_from_reg_id_store
  table-remove_from_reg_id_store r key id = ground arith

  pub everything-remove_from_reg_id_store :
      (r : PubSubDataRouter K S C KC) (key : K) (id : S)
      → (remove_from_reg_id_store r key id).0.everything_subscribers ≡ r.everything_subscribers
  unfolding remove_from_reg_id_store
  everything-remove_from_reg_id_store r key id = ground arith

  pub no_empty_keys-remove_from_reg_id_store :
      (r : PubSubDataRouter K S C KC) (key : K) (id s : S)
      → lookup s r.reg_id_to_keys ≢ some []
      → lookup s (remove_from_reg_id_store r key id).0.reg_id_to_keys ≢ some []
  unfolding remove_from_reg_id_store
  no_empty_keys-remove_from_reg_id_store r key id s h = ground (
    arith,
    lookup-remove id s r.reg_id_to_keys,
    lookup-assign id s (erase key (noted r id)) r.reg_id_to_keys,
  )
