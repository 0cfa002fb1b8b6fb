-- ===== src/Router/PubSub/Unregister.antt =====
-- CrazyRouters.hpp, `PubSubDataRouter`: `unregister`, `unregisterAll` and the subscribers of
-- everything.
use multi_market_prices.Prelude.{
  ◌≡◌, refl, ◌≢◌, true, ◌&&◌, not, none, some, List, [], Eq, ◌==◌, arith, if◌then◌else◌, is_some,
  lookup, remove, contains, lookup-remove, assign-IsDistinct, remove-IsDistinct, inl, inr,
  Option-cases,
}
use multi_market_prices.Router.PubSub.{
  PubSubDataRouter, consume_every_thing, unregister_from_everything, remove_from_routing_table,
  unregister, remove_each, unregister_all,
}
use multi_market_prices.Router.PubSub.Views.{
  subscription, noted, subscription-remove_from_routing_table, remove_from_routing_table_found,
  reg_id_to_keys-remove_from_routing_table, everything-remove_from_routing_table,
  noted-remove_from_reg_id_store, remove_from_reg_id_store_found, table-remove_from_reg_id_store,
  everything-remove_from_reg_id_store, no_empty_keys-remove_from_reg_id_store,
}
use multi_market_prices.Router.PubSub.Invariant.{
  IsTidy, IsConsistent, remove_from_routing_table-IsTidy, remove_each-IsTidy,
  subscription-remove_each, books-remove_each,
}

module _ {K S C KC : Type 0} ⦃eK : Eq K⦄ ⦃eS : Eq S⦄ where
  -- A router with the same tables routes alike.
  IsTidy-table :
      (q r : PubSubDataRouter K S C KC) → q.routing_table ≡ r.routing_table → IsTidy r → IsTidy q
  IsTidy-table q r e t = record {
    no_empty_table = λ k. rw e (t.no_empty_table k);
    distinct = λ k. rw e (t.distinct k);
  }

  subscription-table :
      (q r : PubSubDataRouter K S C KC) (k : K) (s : S)
      → q.routing_table ≡ r.routing_table
      → subscription q k s ≡ subscription r k s
  unfolding subscription
  subscription-table q r k s e = rw e

  module _ (r : PubSubDataRouter K S C KC) (v : IsConsistent r) (key : K) (id : S) where
    -- Both halves of `unregister` run, and neither fails after the first has succeeded.
    pub unregister_found : (unregister r key id).1 ≡ is_some (subscription r key id)
    unfolding unregister
    unregister_found = ground (
      arith,
      remove_from_routing_table_found r key id,
      remove_from_reg_id_store_found (remove_from_routing_table r key id).0 key id,
      reg_id_to_keys-remove_from_routing_table r key id,
      v.agree key id,
    )

    pub subscription-unregister :
        (k : K) (s : S)
        → subscription (unregister r key id).0 k s
          ≡ (if key == k && id == s then none else subscription r k s)
    unfolding unregister
    subscription-unregister k s = ground (
      arith,
      subscription-remove_from_routing_table r key k id s,
      table-remove_from_reg_id_store (remove_from_routing_table r key id).0 key id,
      subscription-table (unregister r key id).0 (remove_from_routing_table r key id).0 k s,
    )

    noted-unregister :
        (k : K) (s : S)
        → contains k (noted (unregister r key id).0 s) ≡ (
            not ((key == k && id == s) && is_some (subscription r key id))
            && contains k (noted r s))
    unfolding unregister
    noted-unregister k s = ground (
      arith,
      remove_from_routing_table_found r key id,
      noted-remove_from_reg_id_store (remove_from_routing_table r key id).0 key k id s,
      reg_id_to_keys-remove_from_routing_table r key id,
    )

    unregister-no_empty_keys : (s : S) → lookup s (unregister r key id).0.reg_id_to_keys ≢ some []
    unfolding unregister
    unregister-no_empty_keys s = ground (
      arith,
      v.no_empty_keys s,
      no_empty_keys-remove_from_reg_id_store (remove_from_routing_table r key id).0 key id s,
      reg_id_to_keys-remove_from_routing_table r key id,
    )

    table-unregister :
        ((unregister r key id).0.routing_table
          ≡ (remove_from_routing_table r key id).0.routing_table)
        × ((unregister r key id).0.everything_subscribers ≡ r.everything_subscribers)
    unfolding unregister
    table-unregister = ground (
      arith,
      table-remove_from_reg_id_store (remove_from_routing_table r key id).0 key id,
      everything-remove_from_reg_id_store (remove_from_routing_table r key id).0 key id,
      everything-remove_from_routing_table r key id,
    )

    pub unregister-IsConsistent : IsConsistent (unregister r key id).0
    unregister-IsConsistent = record {
      tidy = IsTidy-table _ _ table-unregister.0 (remove_from_routing_table-IsTidy r v.tidy key id);
      agree = λ k s.
          ground
            (arith, v.agree k s, v.agree key id, subscription-unregister k s, noted-unregister k s);
      no_empty_keys = unregister-no_empty_keys;
      everything_distinct = rw table-unregister.1 v.everything_distinct;
    }

  module _ (r : PubSubDataRouter K S C KC) (v : IsConsistent r) (id : S) where
    -- The two stages of `unregisterAll`, once the subscriber has keys.
    cleared : List K → PubSubDataRouter K S C KC
    cleared ks = record (remove_each ks id r) {
      reg_id_to_keys = remove id (remove_each ks id r).reg_id_to_keys;
      everything_subscribers = remove id (remove_each ks id r).everything_subscribers;
    }

    unregister_all-cleared :
        (ks : List K)
        → lookup id r.reg_id_to_keys ≡ some ks
        → unregister_all r id ≡ (cleared ks, true)
    unfolding unregister_all unregister_from_everything cleared
    unregister_all-cleared ks e = rw (e, unregister_all)

    subscription-cleared :
        (ks : List K) (k : K) (s : S)
        → lookup id r.reg_id_to_keys ≡ some ks
        → subscription (cleared ks) k s ≡ (if id == s then none else subscription r k s)
    unfolding cleared
    subscription-cleared ks k s e = ground (
      arith,
      v.agree k s,
      subscription-remove_each ks id r k s,
      subscription-table (cleared ks) (remove_each ks id r) k s,
    )

    cleared-IsConsistent :
        (ks : List K) → lookup id r.reg_id_to_keys ≡ some ks → IsConsistent (cleared ks)
    unfolding cleared contains
    cleared-IsConsistent ks e = record {
      tidy = IsTidy-table _ (remove_each ks id r) refl (remove_each-IsTidy ks id r v.tidy);
      agree = λ k s. ground (
        arith,
        v.agree k s,
        subscription-cleared ks k s e,
        books-remove_each ks id r,
        lookup-remove id s (remove_each ks id r).reg_id_to_keys,
      );
      no_empty_keys = λ s. ground (
        arith,
        v.no_empty_keys s,
        books-remove_each ks id r,
        lookup-remove id s (remove_each ks id r).reg_id_to_keys,
      );
      everything_distinct =
          rw ((books-remove_each ks id r).1) (remove-IsDistinct id _ v.everything_distinct);
    }

    pub unregister_from_everything-IsConsistent : IsConsistent (unregister_from_everything r id).0
    unfolding unregister_from_everything subscription
    unregister_from_everything-IsConsistent = record {
      tidy = IsTidy-table _ r refl v.tidy;
      agree = v.agree;
      no_empty_keys = v.no_empty_keys;
      everything_distinct = remove-IsDistinct id _ v.everything_distinct;
    }

    pub consume_every_thing-IsConsistent : (c : KC) → IsConsistent (consume_every_thing r id c).0
    unfolding consume_every_thing subscription
    consume_every_thing-IsConsistent c = elim (Option-cases (lookup id r.everything_subscribers)) [
      | inl e ↦
          rw (e, consume_every_thing)
            (record {
              tidy = IsTidy-table _ r refl v.tidy;
              agree = v.agree;
              no_empty_keys = v.no_empty_keys;
              everything_distinct = assign-IsDistinct id c _ v.everything_distinct;
            })
      | inr (_, e) ↦ rw (e, consume_every_thing) v
    ]

    pub unregister_all-IsConsistent : IsConsistent (unregister_all r id).0
    unregister_all-IsConsistent = elim (Option-cases (lookup id r.reg_id_to_keys)) [
      | inl e ↦
          unfold unregister_all in rw (e, unregister_all) unregister_from_everything-IsConsistent
      | inr (ks, e) ↦ rw (unregister_all-cleared ks e) (cleared-IsConsistent ks e)
    ]

    pub subscription-unregister_all :
        (k : K) (s : S)
        → subscription (unregister_all r id).0 k s ≡ (if id == s then none else subscription r k s)
    subscription-unregister_all k s = elim (Option-cases (lookup id r.reg_id_to_keys)) [
      | inl e ↦
          unfold unregister_all unregister_from_everything subscription contains in
          rw (e, unregister_all) (ground (arith, v.agree k s))
      | inr (ks, e) ↦ rw (unregister_all-cleared ks e) (subscription-cleared ks k s e)
    ]
