-- ===== src/Platform/Rebalance.antt =====
-- MiddleWare/Interface.cpp, the callback that Kafka calls on a rebalance, and PlatformComm.cpp,
-- which it calls for each partition.
pub mod Asking
use multi_market_prices.Prelude.{
  ℕ, ◌+◌, ◌≡◌, refl, ap, sym, ◌∙◌, Bool, true, false, not, ◌||◌, Option, none, some, List, [], ◌∷◌,
  ◌++◌, String, string_eq, nat_eq, ◌==◌, if◌then◌else◌, is_some, lookup, assign, contains,
  lookup-assign, IsDistinct, arith, inl, inr, Option-cases, Bool-cases, eq_of_==, ==_refl, Map,
}
use multi_market_prices.Partition.{Engine, assign_again, revoke}
use multi_market_prices.Platform.{
  object, group_of, PlatformEffect, control, Platform, controls, on_assigned, on_revoked,
}

pub data TopicAssignmentEvent : Type 0 where
  partition_assigned partition_revoked : TopicAssignmentEvent

-- `kafkaRebalanceCallback`, with whether the event is `PartitionsAssigned`: the calls of the
-- application's callback, for topics and partitions.
unfoldable pub kafka_rebalance_callback :
    Bool → List (String × ℕ) → List (TopicAssignmentEvent × String × ℕ)
kafka_rebalance_callback is_assigned [] = []
kafka_rebalance_callback is_assigned ((topic, partition) ∷ tps) =
    (if is_assigned then partition_assigned else partition_revoked, topic, partition)
    ∷ kafka_rebalance_callback is_assigned tps

module _ {F : Type 0} (engine : Engine F) where
  -- `rebalanceCallback`; `req_id` is the id that the generator draws if it is asked.
  unfoldable pub rebalance_callback :
      ℕ → TopicAssignmentEvent × String × ℕ → Platform F → Platform F × List PlatformEffect
  unfolding on_assigned on_revoked
  rebalance_callback req_id (partition_assigned, topic, partition) s =
      on_assigned engine req_id partition s
  rebalance_callback req_id (partition_revoked, topic, partition) s = on_revoked engine partition s

  -- A rebalance: `ids` gives each call the id that it draws if it draws one.
  unfoldable pub rebalance :
      (ℕ → ℕ)
      → ℕ
      → List (TopicAssignmentEvent × String × ℕ)
      → Platform F
      → Platform F × List PlatformEffect
  unfolding rebalance_callback
  rebalance ids n [] s = (s, [])
  rebalance ids n (call ∷ calls) s =
      let first = rebalance_callback (ids n) call s in
      let rest = rebalance ids (n + 1) calls first.0 in (rest.0, first.1 ++ rest.1)
