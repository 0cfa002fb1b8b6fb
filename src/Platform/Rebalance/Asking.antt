-- ===== src/Platform/Rebalance/Asking.antt =====
-- PlatformComm.cpp, `rebalanceCallback`: which partitions are asked for.
use multi_market_prices.Prelude.{
  ℕ, ◌+◌, ◌≡◌, refl, ap, ◌∙◌, Bool, true, false, ◌||◌, none, some, List, [], ◌∷◌, ◌++◌, String,
  string_eq, nat_eq, if◌then◌else◌, is_some, lookup, assign, contains, lookup-assign, IsDistinct,
  arith, inl, inr, Option-cases, eq_of_==, ==_refl, Map,
}
use multi_market_prices.Partition.{Engine, assign_again, revoke}
use multi_market_prices.Platform.{
  object, group_of, PlatformEffect, Platform, controls, on_assigned, on_revoked,
}
use multi_market_prices.Platform.Rebalance.{kafka_rebalance_callback, rebalance_callback, rebalance}

-- The ids of the requests, in order.
unfoldable pub requests_of : List PlatformEffect → List ℕ
requests_of [] = []
requests_of (PlatformEffect.request req_id payload topic ∷ es) = req_id ∷ requests_of es
requests_of (_ ∷ es) = requests_of es

abbrev pub partitions_of : List (String × ℕ) → List ℕ
partitions_of [] = []
partitions_of ((topic, partition) ∷ tps) = partition ∷ partitions_of tps

requests_of-controls :
    (calls : List (String × Bool)) (es : List PlatformEffect)
    → requests_of (controls calls ++ es) ≡ requests_of es
unfolding requests_of
requests_of-controls [] es = refl
requests_of-controls ((key, is_sub) ∷ calls) es = requests_of-controls calls es

module _ {F : Type 0} where
  -- The ids that the calls for partitions with no machine draw.
  abbrev pub fresh_ids : (ℕ → ℕ) → ℕ → List ℕ → Map ℕ F → List ℕ
  fresh_ids ids n [] m = []
  fresh_ids ids n (p ∷ ps) m =
      if is_some (lookup p m)
      then fresh_ids ids (n + 1) ps m
      else ids n ∷ fresh_ids ids (n + 1) ps m

  fresh_ids-assign :
      (ids : ℕ → ℕ) (n : ℕ) (ps : List ℕ) (m : Map ℕ F) (q : ℕ) (fsm : F)
      → contains q ps ≡ false
      → fresh_ids ids n ps (assign q fsm m) ≡ fresh_ids ids n ps m
  unfolding contains
  fresh_ids-assign ids n [] m q fsm h = refl
  fresh_ids-assign ids n (p ∷ ps) m q fsm h = ground (
    arith,
    h,
    lookup-assign q p fsm m,
    eq_of_== q p,
    ==_refl q,
    fresh_ids-assign ids (n + 1) ps m q fsm (ground arith),
  )

module _ {F : Type 0} (engine : Engine F) (ids : ℕ → ℕ) where
  -- What the calls of one rebalance do.
  record Rebalances (et : Bool) (n : ℕ) (tps : List (String × ℕ)) (s : Platform F) : Type 0 where
    requested :
        requests_of (rebalance engine ids n (kafka_rebalance_callback et tps) s).1
        ≡ fresh_ids ids n (partitions_of tps) s.partition_fsms
    known :
        (p : ℕ)
        → is_some
            (lookup p (rebalance engine ids n (kafka_rebalance_callback et tps) s).0.partition_fsms)
          ≡ (contains p (partitions_of tps) || is_some (lookup p s.partition_fsms))

  assign_first :
      (n : ℕ) (topic : String) (q : ℕ) (tps : List (String × ℕ)) (s s' : Platform F)
      (es : List PlatformEffect)
      → on_assigned engine (ids n) q s ≡ (s', es)
      → let rest = rebalance engine ids (n + 1) (kafka_rebalance_callback true tps) s' in
        rebalance engine ids n (kafka_rebalance_callback true ((topic, q) ∷ tps)) s
        ≡ (rest.0, es ++ rest.1)
  unfolding rebalance kafka_rebalance_callback rebalance_callback
  assign_first n topic q tps s s' es e =
      ap
        (λ first.
          let rest = rebalance engine ids (n + 1) (kafka_rebalance_callback true tps) first.0 in
          (rest.0, first.1 ++ rest.1))
        e

  -- One partition that gets a machine in front of the others.
  first-Rebalances :
      (n : ℕ) (topic : String) (q : ℕ) (tps : List (String × ℕ)) (s : Platform F) (fsm : F)
      (es : List PlatformEffect)
      → contains q (partitions_of tps) ≡ false
      → on_assigned engine (ids n) q s
        ≡ (record s { partition_fsms = assign q fsm s.partition_fsms }, es)
      → ((others : List PlatformEffect)
          → requests_of (es ++ others) ≡ (
              if is_some (lookup q s.partition_fsms)
              then requests_of others
              else ids n ∷ requests_of others))
      → Rebalances true (n + 1) tps (record s { partition_fsms = assign q fsm s.partition_fsms })
      → Rebalances true n ((topic, q) ∷ tps) s
  unfolding contains
  first-Rebalances n topic q tps s fsm es h e r rest = record {
    requested = rw (assign_first n topic q tps s _ es e) (
        r _
        ∙ ap (λ l. if is_some (lookup q s.partition_fsms) then l else ids n ∷ l)
            (rest.requested
              ∙ fresh_ids-assign ids (n + 1) (partitions_of tps) s.partition_fsms q fsm h));
    known = λ p.
        rw (assign_first n topic q tps s _ es e)
          (rest.known p ∙ ground (arith, lookup-assign q p fsm s.partition_fsms));
  }

  assigned_new :
      (n q : ℕ) (s : Platform F)
      → lookup q s.partition_fsms ≡ none
      → (es : List PlatformEffect) × (on_assigned engine n q s
          ≡ (record s { partition_fsms = assign q engine.started s.partition_fsms }, es))
        × ((others : List PlatformEffect) → requests_of (es ++ others) ≡ n ∷ requests_of others)
  unfolding on_assigned requests_of
  assigned_new n q s e = (
    PlatformEffect.request n
          (object (("group", group_of q s) ∷ ("destination_topic", s.app_id) ∷ []))
          s.sync_data_request_topic
        ∷ [],
    rw (e, on_assigned) refl,
    λ others. refl,
  )

  assigned_old :
      (n q : ℕ) (s : Platform F) (fsm : F)
      → lookup q s.partition_fsms ≡ some fsm
      → let handled = engine.handle_event fsm assign_again in
        on_assigned engine n q s
        ≡ (record s { partition_fsms = assign q handled.0 s.partition_fsms }, controls handled.1)
  unfolding on_assigned
  assigned_old n q s fsm e = rw (e, on_assigned) refl

  revoked :
      (q : ℕ) (s : Platform F)
      → ((others : List PlatformEffect)
          → requests_of ((on_revoked engine q s).1 ++ others) ≡ requests_of others)
        × ((p : ℕ)
            → is_some (lookup p (on_revoked engine q s).0.partition_fsms)
              ≡ is_some (lookup p s.partition_fsms))
  unfolding on_revoked
  revoked q s = elim (Option-cases (lookup q s.partition_fsms)) [
    | inl e ↦ rw (e, on_revoked) (λ others. refl, λ p. refl)
    | inr (fsm, e) ↦
        let handled = engine.handle_event fsm revoke in
        rw (e, on_revoked)
          (
            requests_of-controls handled.1,
            λ p. ground (arith, e, eq_of_== q p, lookup-assign q p handled.0 s.partition_fsms),
          )
  ]

  assigned-Rebalances :
      (n : ℕ) (tps : List (String × ℕ)) (s : Platform F)
      → IsDistinct (partitions_of tps)
      → Rebalances true n tps s
  unfolding rebalance kafka_rebalance_callback requests_of contains
  assigned-Rebalances n [] s d = record { requested = refl; known = λ p. refl }
  assigned-Rebalances n ((topic, q) ∷ tps) s d = elim (Option-cases (lookup q s.partition_fsms)) [
    | inl e ↦
        let (es, f, g) = assigned_new (ids n) q s e in
        first-Rebalances n topic q tps s engine.started es d.0 f (λ others. rw e (g others))
          (assigned-Rebalances (n + 1) tps _ d.1)
    | inr (fsm, e) ↦
        let handled = engine.handle_event fsm assign_again in
        first-Rebalances n topic q tps s handled.0 (controls handled.1) d.0
          (assigned_old (ids n) q s fsm e) (λ others. rw e (requests_of-controls handled.1 others))
          (assigned-Rebalances (n + 1) tps _ d.1)
  ]

  revoked-Rebalances :
      (n : ℕ) (tps : List (String × ℕ)) (s : Platform F)
      → let out = rebalance engine ids n (kafka_rebalance_callback false tps) s in
        (requests_of out.1 ≡ [])
        × ((p : ℕ) → is_some (lookup p out.0.partition_fsms) ≡ is_some (lookup p s.partition_fsms))
  unfolding rebalance kafka_rebalance_callback requests_of rebalance_callback
  revoked-Rebalances n [] s = (refl, λ p. refl)
  revoked-Rebalances n ((topic, q) ∷ tps) s =
      let (none_asked, same) = revoked q s in
      let (none_asked', same') = revoked-Rebalances (n + 1) tps (on_revoked engine q s).0 in
      (none_asked _ ∙ none_asked', λ p. same' p ∙ same p)

  -- When partitions with different numbers are assigned to the gateway in one rebalance, each of
  -- them that has no machine makes one request, with the id drawn for it and in the order of the
  -- partitions, and each that has one makes none; afterwards just these partitions and those that
  -- had a machine have one. A rebalance that revokes partitions makes no request and leaves the same
  -- partitions with machines.
  pub rebalance_lem :
      (n : ℕ) (tps : List (String × ℕ)) (s : Platform F)
      → IsDistinct (partitions_of tps)
      → let assigned = rebalance engine ids n (kafka_rebalance_callback true tps) s in
        let revoked = rebalance engine ids n (kafka_rebalance_callback false tps) s in
        (requests_of assigned.1 ≡ fresh_ids ids n (partitions_of tps) s.partition_fsms)
        × ((p : ℕ)
            → is_some (lookup p assigned.0.partition_fsms)
              ≡ (contains p (partitions_of tps) || is_some (lookup p s.partition_fsms)))
        × (requests_of revoked.1 ≡ [])
        × ((p : ℕ)
            → is_some (lookup p revoked.0.partition_fsms) ≡ is_some (lookup p s.partition_fsms))
  rebalance_lem n tps s d =
      let a = assigned-Rebalances n tps s d in
      let r = revoked-Rebalances n tps s in (a.requested, a.known, r.0, r.1)
