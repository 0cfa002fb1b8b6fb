-- ===== src/Router/PubSub/Invariant.antt =====
-- CrazyRouters.hpp, `PubSubDataRouter`: the two tables agree after every public operation.
use multi_market_prices.Prelude.{
  ◌≡◌, refl, ◌∙◌, ◌≢◌, ◌&&◌, none, some, List, [], ◌∷◌, Eq, ◌==◌, arith, if◌then◌else◌, is_some,
  lookup, assign, remove, contains, insert, keys, IsDistinct, assign-ne-nil, insert-ne-nil,
  lookup-assign, lookup-remove, assign-IsDistinct, remove-IsDistinct,
}
use multi_market_prices.Router.PubSub.{
  PubSubDataRouter, init, consume, remove_from_routing_table, remove_each,
}
use multi_market_prices.Router.PubSub.Views.{
  subscribers, subscription, noted, subscription-consume, noted-consume,
  subscription-remove_from_routing_table, reg_id_to_keys-remove_from_routing_table,
  everything-remove_from_routing_table,
}

module _ {K S C KC : Type 0} ⦃eK : Eq K⦄ ⦃eS : Eq S⦄ where
  -- The routing table keeps no key without subscribers, and no subscriber twice under a key.
  pub record IsTidy (r : PubSubDataRouter K S C KC) : Type 0 where
    pub no_empty_table : (k : K) → lookup k r.routing_table ≢ some []
    pub distinct : (k : K) → IsDistinct (keys (subscribers r k))

  -- The routing table and the book of keys record the same subscriptions, neither keeps an entry
  -- that is empty, and no subscriber stands twice under a key or among those of everything.
  pub record IsConsistent (r : PubSubDataRouter K S C KC) : Type 0 where
    pub tidy : IsTidy r
    pub agree : (k : K) (s : S) → is_some (subscription r k s) ≡ contains k (noted r s)
    pub no_empty_keys : (s : S) → lookup s r.reg_id_to_keys ≢ some []
    pub everything_distinct : IsDistinct (keys r.everything_subscribers)

  pub init-IsConsistent : IsConsistent (init {K = K} {S = S} {C = C} {KC = KC})
  unfolding lookup contains subscription
  init-IsConsistent = record {
    tidy = record { no_empty_table = λ k. ground arith; distinct = λ k. tt };
    agree = λ k s. refl;
    no_empty_keys = λ s. ground arith;
    everything_distinct = tt;
  }

  module _ (r : PubSubDataRouter K S C KC) (t : IsTidy r) (key : K) (id : S) where
    remove-no_empty_table :
        (k : K) → lookup k (remove_from_routing_table r key id).0.routing_table ≢ some []
    unfolding remove_from_routing_table
    remove-no_empty_table k = ground (
      arith,
      t.no_empty_table k,
      lookup-remove key k r.routing_table,
      lookup-assign key k (remove id (subscribers r key)) r.routing_table,
    )

    remove-IsDistinct-subscribers :
        (k : K) → IsDistinct (keys (subscribers (remove_from_routing_table r key id).0 k))
    unfolding remove_from_routing_table
    remove-IsDistinct-subscribers k = ground (
      arith,
      t.distinct k,
      t.distinct key,
      lookup-remove key k r.routing_table,
      remove-IsDistinct id (subscribers r key),
      lookup-assign key k (remove id (subscribers r key)) r.routing_table,
    )

    pub remove_from_routing_table-IsTidy : IsTidy (remove_from_routing_table r key id).0
    remove_from_routing_table-IsTidy = record {
      no_empty_table = remove-no_empty_table;
      distinct = remove-IsDistinct-subscribers;
    }

  module _ (r : PubSubDataRouter K S C KC) (v : IsConsistent r) (key : K) (id : S) where
    consume-no_empty_table :
        (c : C) (k : K) → lookup k (consume r key id c).0.routing_table ≢ some []
    unfolding consume
    consume-no_empty_table c k = ground (
      arith,
      v.tidy.no_empty_table k,
      assign-ne-nil id c (subscribers r key),
      lookup-assign key k (assign id c (subscribers r key)) r.routing_table,
      lookup-assign key k ((id, c) ∷ []) r.routing_table,
    )

    consume-no_empty_keys :
        (c : C) (s : S) → lookup s (consume r key id c).0.reg_id_to_keys ≢ some []
    unfolding consume
    consume-no_empty_keys c s = ground (
      arith,
      v.no_empty_keys s,
      insert-ne-nil key (noted r id),
      lookup-assign id s (insert key (noted r id)) r.reg_id_to_keys,
    )

    consume-IsDistinct : (c : C) (k : K) → IsDistinct (keys (subscribers (consume r key id c).0 k))
    unfolding consume contains
    consume-IsDistinct c k = ground (
      arith,
      v.tidy.distinct k,
      v.tidy.distinct key,
      assign-IsDistinct id c (subscribers r key),
      lookup-assign key k (assign id c (subscribers r key)) r.routing_table,
      lookup-assign key k ((id, c) ∷ []) r.routing_table,
    )

    consume-everything :
        (c : C) → (consume r key id c).0.everything_subscribers ≡ r.everything_subscribers
    unfolding consume
    consume-everything c = ground arith

    pub consume-IsConsistent : (c : C) → IsConsistent (consume r key id c).0
    consume-IsConsistent c = record {
      agree = λ k s.
          ground
            (arith, v.agree k s, subscription-consume r key k id s c, noted-consume r key k id s c);
      tidy = record { no_empty_table = consume-no_empty_table c; distinct = consume-IsDistinct c };
      no_empty_keys = consume-no_empty_keys c;
      everything_distinct = rw (consume-everything c) v.everything_distinct;
    }

  -- What the loop of `unregisterAll` leaves.
  pub remove_each-IsTidy :
      (ks : List K) (id : S) (r : PubSubDataRouter K S C KC)
      → IsTidy r
      → IsTidy (remove_each ks id r)
  unfolding remove_each
  remove_each-IsTidy [] id r t = t
  remove_each-IsTidy (k ∷ ks) id r t =
      remove_each-IsTidy ks id _ (remove_from_routing_table-IsTidy r t k id)

  pub subscription-remove_each :
      (ks : List K) (id : S) (r : PubSubDataRouter K S C KC) (k : K) (s : S)
      → subscription (remove_each ks id r) k s
        ≡ (if contains k ks && id == s then none else subscription r k s)
  unfolding remove_each contains
  subscription-remove_each [] id r k s = refl
  subscription-remove_each (j ∷ ks) id r k s = ground (
    arith,
    subscription-remove_each ks id (remove_from_routing_table r j id).0 k s,
    subscription-remove_from_routing_table r j k id s,
  )

  pub books-remove_each :
      (ks : List K) (id : S) (r : PubSubDataRouter K S C KC)
      → ((remove_each ks id r).reg_id_to_keys ≡ r.reg_id_to_keys)
        × ((remove_each ks id r).everything_subscribers ≡ r.everything_subscribers)
  unfolding remove_each
  books-remove_each [] id r = (refl, refl)
  books-remove_each (j ∷ ks) id r =
      let (b, e) = books-remove_each ks id (remove_from_routing_table r j id).0 in
      (
        b ∙ reg_id_to_keys-remove_from_routing_table r j id,
        e ∙ everything-remove_from_routing_table r j id,
      )
