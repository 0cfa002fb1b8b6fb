-- ===== src/Platform/Download.antt =====
-- MDGateways/PlatformComm/PlatformComm.cpp: the subscriptions of a partition, which are asked for
-- when it is assigned and come as responses (`responseCb`).
use Prim.Native.String
use multi_market_prices.Prelude.{
  ℕ, ◌<◌, ◌^◌, ◌≡◌, refl, ap, ◌∙◌, Bool, true, Option, none, some, List, [], ◌∷◌, String, string_eq,
  nat_eq, if◌then◌else◌, lookup, assign, split, atoi, to_string, lacks, chr, split-append,
  pieces-append, pieces-lacks, lacks-to_string, atoi-to_string, lookup-assign, ==_refl, arith,
}
use text.Mathlib.TextLemmas.{nil-append, cons-append}
use multi_market_prices.Partition.{PartitionEvent, subscription_record, download_end, Engine}
use multi_market_prices.Platform.{
  Gateway, object, PlatformEffect, request, Platform, controls, group_of, on_assigned,
}

-- The partition that a group names, from its last part: `none` if it has not three parts, or no
-- number of a partition.
unfoldable pub partition_of : String → Option ℕ
unfolding split atoi
partition_of group = elim (split b':' group) [
  | [] ↦ none
  | a ∷ others ↦ elim others [
    | [] ↦ none
    | b ∷ bs ↦ elim bs [ [] ↦ none | c ∷ cs ↦ elim cs [ [] ↦ atoi c | d ∷ ds ↦ none ] ]
  ]
]

module _ {F Obj : Type 0} (engine : Engine F) (lib : Gateway Obj) where
  -- `SubscriptionRecord` and `DownloadEnd`. A record without a key is an exception here in every state
  -- of the machine; the code throws it where `Downloading` reads the key, and another state drops the
  -- record unread.
  unfoldable pub event_of : Bool → Obj → Option PartitionEvent
  event_of is_last obj = if is_last then some download_end else (elim (lib.text_at "key" obj) [
    | none ↦ none
    | some key ↦ some (subscription_record key)
  ])

  -- The machine of a partition handles an event.
  abbrev pub handle : ℕ → F → PartitionEvent → Platform F → Platform F × List PlatformEffect
  handle partition fsm event s =
      let handled = engine.handle_event fsm event in
      (
        record s { partition_fsms = assign partition handled.0 s.partition_fsms },
        controls handled.1,
      )

  -- `responseCb`. A text that does not parse throws too: `as_object` is called before the error is
  -- looked at.
  unfoldable pub response_cb :
      String → Bool → Platform F → Option (Platform F × List PlatformEffect)
  unfolding partition_of event_of
  response_cb msg is_last s = elim (lib.parse_object msg) [
    | none ↦ none
    | some obj ↦ elim (lib.text_at "group" obj) [
      | none ↦ none
      | some group ↦ elim (partition_of group) [
        | none ↦ some (s, [])
        | some partition ↦ elim (lookup partition s.partition_fsms) [
          | none ↦ some (s, [])
          | some fsm ↦ elim (event_of is_last obj) [
            | none ↦ none
            | some event ↦ some (handle partition fsm event s)
          ]
        ]
      ]
    ]
  ]

colon : (t : String) → String.◌++◌ ":" t ≡ String.◌∷◌ (chr b':') t
unfolding chr
colon t = cons-append (chr b':') String.[] t ∙ ap (λ u. String.◌∷◌ (chr b':') u) (nil-append t)

module _ {F : Type 0} (s : Platform F) (partition : ℕ) where
  -- The names of the group and the topic have no colon, and the number fits an `int`.
  abbrev pub IsNamed : Type 0
  IsNamed = (lacks b':' s.app_group ≡ true) × (lacks b':' s.in_topic ≡ true) × (partition < 2 ^ 31)

  split-group_of :
      IsNamed
      → split b':' (group_of partition s) ≡ s.app_group ∷ s.in_topic ∷ to_string partition ∷ []
  unfolding group_of chr
  split-group_of (g, t, b) =
      ap (split b':') (
        ap (λ u. String.◌++◌ s.app_group u)
          (colon (String.◌++◌ s.in_topic (String.◌++◌ ":" (to_string partition)))
            ∙ ap (λ u. String.◌∷◌ (chr b':') (String.◌++◌ s.in_topic u))
                (colon (to_string partition))))
      ∙ split-append b':' s.app_group (chr b':')
          (String.◌++◌ s.in_topic (String.◌∷◌ (chr b':') (to_string partition))) g refl
      ∙ ap (λ l. s.app_group ∷ l)
          (pieces-append b':' s.in_topic (chr b':') (to_string partition) t refl
            ∙ ap (λ l. s.in_topic ∷ l)
                (pieces-lacks b':' (to_string partition)
                  (lacks-to_string b':' partition (ground arith))))

  partition_of-group_of : IsNamed → partition_of (group_of partition s) ≡ some partition
  unfolding partition_of
  partition_of-group_of n = rw (split-group_of n, partition_of) (atoi-to_string partition n.2)

module _ {F Obj : Type 0} (engine : Engine F) (lib : Gateway Obj) (s : Platform F)
    (partition : ℕ) where
  -- For a partition whose number fits an `int` and that has no machine, and names of the group and
  -- the topic without a colon: when it is assigned, one request goes out, with the partition's
  -- group; and a response that parses, carries this same group and has what its event needs is
  -- handled by the machine of just this partition, as the end of the download if it is the last one
  -- and as a subscription otherwise, and by nothing else.
  pub response_cb-on_assigned :
      (req_id : ℕ) (msg : String) (obj : Obj) (is_last : Bool) (event : PartitionEvent)
      → IsNamed s partition
      → lookup partition s.partition_fsms ≡ none
      → lib.parse_object msg ≡ some obj
      → lib.text_at "group" obj ≡ some (group_of partition s)
      → event_of engine lib is_last obj ≡ some event
      → let assigned = on_assigned engine req_id partition s in
        (assigned.1
          ≡ request req_id
              (object (("group", group_of partition s) ∷ ("destination_topic", s.app_id) ∷ []))
              s.sync_data_request_topic
            ∷ [])
        × (response_cb engine lib msg is_last assigned.0
            ≡ some (handle engine lib partition engine.started event assigned.0))
  unfolding on_assigned response_cb
  response_cb-on_assigned req_id msg obj is_last event n f p g e =
      let found : lookup partition (assign partition engine.started s.partition_fsms)
          ≡ some engine.started =
        ground (
          arith,
          lookup-assign partition partition engine.started s.partition_fsms,
          ==_refl partition,
        ) in
      rw (f, on_assigned)
        (
          refl,
          rw (p, response_cb)
              (rw (g, response_cb)
                (rw (partition_of-group_of s partition n, response_cb)
                  (rw (found, e, response_cb) refl))),
        )
