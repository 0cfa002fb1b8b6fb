-- ===== src/Platform/Messages.antt =====
-- MDGateways/PlatformComm/PlatformComm.cpp, `msgCb`: the table of topics under any messages.
use multi_market_prices.Prelude.{
  ℕ, Bool, ◌||◌, Option, none, some, List, String, string_eq, nat_eq, ◌==◌, lookup, inl, inr,
  Bool-cases, Option-cases,
}
use multi_market_prices.Partition.{Engine}
use multi_market_prices.Platform.{
  Gateway, PlatformEffect, Platform, route, msg_cb, handle_book_keeping,
}
use multi_market_prices.Platform.Routing.{IsRouted, handle_book_keeping-IsRouted}

module _ {F : Type 0} (engine : Engine F) where
  -- The table is well-formed when the handler returns.
  abbrev pub Leaves : Option (Platform F × List PlatformEffect) → Type 0
  Leaves none = Unit
  Leaves (some out) = IsRouted out.0.symbol_to_dest_topics

  Leaves-route :
      (partition : ℕ) (fsm : F) (key topic : String) (is_sub : Bool) (s : Platform F)
      → IsRouted s.symbol_to_dest_topics
      → IsRouted (route engine partition fsm key topic is_sub s).0.symbol_to_dest_topics
  unfolding route
  Leaves-route partition fsm key topic is_sub s v =
      let kept = handle_book_keeping-IsRouted s.symbol_to_dest_topics key topic is_sub v in
      elim (Bool-cases (handle_book_keeping key topic is_sub s.symbol_to_dest_topics).1) [
        | inl e ↦ rw e kept
        | inr e ↦ rw e kept
      ]

  module _ {Obj : Type 0} (lib : Gateway Obj) (partition : ℕ) (msg_type msg : String)
      (s : Platform F) where
    -- On a well-formed table, whatever message arrives: when `msgCb` returns and no exception leaves
    -- it, the table is well-formed, with no key without topics and no topic twice under a key.
    pub msg_cb-Leaves :
        IsRouted s.symbol_to_dest_topics → Leaves (msg_cb engine lib partition msg_type msg s)
    unfolding msg_cb
    msg_cb-Leaves v =
        let is_sub = msg_type == "subscribe" in
        elim (Bool-cases (is_sub || msg_type == "unsubscribe")) [
          | inr e ↦ rw e v
          | inl e ↦ elim (Option-cases (lookup partition s.partition_fsms)) [
            | inl f ↦ rw (e, f) v
            | inr (fsm, f) ↦ elim (Option-cases (lib.parse_object msg)) [
              | inl o ↦ rw (e, f, o) tt
              | inr (obj, o) ↦ elim (Option-cases (lib.key_gen is_sub obj)) [
                | inl k ↦ rw (e, f, o, k) v
                | inr (key, k) ↦ elim (Option-cases (lib.text_at "destination_topic" obj)) [
                  | inl t ↦ rw (e, f, o, k, t) tt
                  | inr (topic, t) ↦
                      rw (e, f, o, k, t) (Leaves-route partition fsm key topic is_sub s v)
                ]
              ]
            ]
          ]
        ]
