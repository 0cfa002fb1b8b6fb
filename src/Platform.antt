-- ===== src/Platform.antt =====
-- MDGateways/PlatformComm/PlatformComm.cpp and PerPartitionSM: the table of the topics to which the
-- prices of a key go, the messages that change it, and the delivery of prices. The JSON library, the
-- gateway's key functions and the engine of the state machines are parameters. `none` as a result of a
-- handler is an exception that leaves it.
pub mod Routing
pub mod Delivery
pub mod Requests
pub mod Download
pub mod Status
pub mod Messages
pub mod Rebalance
mod Tests
use Prim.Native.String
use multi_market_prices.Partition.{PartitionEvent, sub_unsub_key, revoke, assign_again, Engine}
use multi_market_prices.Prelude.{
  to_string, ℕ, zero, suc, ◌+◌, ◌/◌, ◌%◌, Bool, true, false, not, ◌&&◌, ◌||◌, Option, none, some,
  List, [], ◌∷◌, ◌++◌, String, string_eq, string_dec, nat_eq, nat_dec, ◌==◌, if◌then◌else◌,
  is_empty, get_or, Map, lookup, assign, remove, contains, insert, erase,
}

-- What the code uses of Boost.JSON and of the gateway: `parse` with `as_object`, `at` with `as_string`
-- (`none` where they throw), the key of a request to subscribe or unsubscribe, and the parts of a key.
pub record Gateway (Obj : Type 0) : Type 0 where
  pub parse_object : String → Option Obj
  pub text_at : String → Obj → Option String
  pub key_gen : Bool → Obj → Option String
  pub disintegrate : String → String × String × String

pub data Payload : Type 0 where
  text : String → Payload
  object : List (String × String) → Payload

pub data PlatformEffect : Type 0 where
  -- `produceControl`: subscribe or unsubscribe the key.
  control : String → Bool → PlatformEffect
  -- `producerFunc`: topic, type, key and payload.
  produce : String → String → String → Payload → PlatformEffect
  -- `requestFunc`: the id, the payload and the topic.
  request : ℕ → Payload → String → PlatformEffect

abbrev pub Routes : Type 0
Routes = Map String (List String)

pub record Platform (F : Type 0) : Type 0 where
  pub app_id : String
  pub app_group : String
  pub in_topic : String
  pub sync_data_topic : String
  pub sync_data_request_topic : String
  pub symbol_to_dest_topics : Routes
  pub partition_fsms : Map ℕ F

-- The function result is whether the table changed.
unfoldable pub handle_book_keeping_for_subscription : String → String → Routes → Routes × Bool
handle_book_keeping_for_subscription key topic t = elim (lookup key t) [
  | none ↦ (assign key (topic ∷ []) t, true)
  | some topics ↦ (assign key (insert topic topics) t, not (contains topic topics))
]

unfoldable pub handle_book_keeping_for_unsubscription : String → String → Routes → Routes × Bool
handle_book_keeping_for_unsubscription key topic t = elim (lookup key t) [
  | none ↦ (t, false)
  | some topics ↦
      if contains topic topics
      then (
        if is_empty (erase topic topics) then remove key t else assign key (erase topic topics) t,
        true,
      )
      else (t, false)
]

unfoldable pub handle_book_keeping : String → String → Bool → Routes → Routes × Bool
unfolding handle_book_keeping_for_subscription handle_book_keeping_for_unsubscription
handle_book_keeping key topic is_sub t =
    if is_sub
    then handle_book_keeping_for_subscription key topic t
    else handle_book_keeping_for_unsubscription key topic t

abbrev pub controls : List (String × Bool) → List PlatformEffect
controls [] = []
controls ((key, is_sub) ∷ calls) = control key is_sub ∷ controls calls

module _ {F : Type 0} where
  -- `appGroup + ":" + inTopic + ":" + std::to_string(partition)`
  unfoldable pub group_of : ℕ → Platform F → String
  unfolding to_string
  group_of partition s =
      String.◌++◌ s.app_group
        (String.◌++◌ ":" (String.◌++◌ s.in_topic (String.◌++◌ ":" (to_string partition))))

  module _ (engine : Engine F) where
    -- The end of `msgCb`, from the book-keeping on.
    unfoldable pub route :
        ℕ → F → String → String → Bool → Platform F → Platform F × List PlatformEffect
    unfolding handle_book_keeping group_of
    route partition fsm key topic is_sub s =
        let (table, changed) = handle_book_keeping key topic is_sub s.symbol_to_dest_topics in
        let (fsm', calls) = engine.handle_event fsm (sub_unsub_key key is_sub) in
        if changed
        then (
          record s {
            symbol_to_dest_topics = table;
            partition_fsms = assign partition fsm' s.partition_fsms;
          },
          controls calls
              ++ produce s.sync_data_topic "sync_data_update" s.app_id (
                  object (
                    ("group", group_of partition s)
                    ∷ ("key", key)
                    ∷ ("action", if is_sub then "subscribe" else "unsubscribe")
                    ∷ ("destination_topic", topic)
                    ∷ []))
                ∷ [],
        )
        else (record s { symbol_to_dest_topics = table }, [])

    unfoldable pub msg_cb :
        {Obj : Type 0}
        → Gateway Obj
        → ℕ
        → String
        → String
        → Platform F
        → Option (Platform F × List PlatformEffect)
    unfolding route string_dec
    msg_cb lib partition msg_type msg s =
        let is_sub = msg_type == "subscribe" in
        if is_sub || msg_type == "unsubscribe"
        then elim (lookup partition s.partition_fsms) [
          | none ↦ some (s, [])
          | some fsm ↦ elim (lib.parse_object msg) [
            | none ↦ none
            | some obj ↦ elim (lib.key_gen is_sub obj) [
              | none ↦ some (s, [])
              | some key ↦ elim (lib.text_at "destination_topic" obj) [
                | none ↦ none
                | some topic ↦ some (route partition fsm key topic is_sub s)
              ]
            ]
          ]
        ]
        else some (s, [])

    -- `rebalanceCallback`; `req_id` is the id that the generator draws.
    unfoldable pub on_assigned : ℕ → ℕ → Platform F → Platform F × List PlatformEffect
    unfolding group_of
    on_assigned req_id partition s = elim (lookup partition s.partition_fsms) [
      | none ↦ (
        record s { partition_fsms = assign partition engine.started s.partition_fsms },
        request req_id
              (object (("group", group_of partition s) ∷ ("destination_topic", s.app_id) ∷ []))
              s.sync_data_request_topic
            ∷ [],
      )
      | some fsm ↦
          let (fsm', calls) = engine.handle_event fsm assign_again in
          (record s { partition_fsms = assign partition fsm' s.partition_fsms }, controls calls)
    ]

    unfoldable pub on_revoked : ℕ → Platform F → Platform F × List PlatformEffect
    on_revoked partition s = elim (lookup partition s.partition_fsms) [
      | none ↦ (s, [])
      | some fsm ↦
          let (fsm', calls) = engine.handle_event fsm revoke in
          (record s { partition_fsms = assign partition fsm' s.partition_fsms }, controls calls)
    ]
