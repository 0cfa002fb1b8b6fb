-- ===== src/Programs/Benchmark/Handling.antt =====
-- PlatformComm.cpp, `msgCb`: the handling of the messages that a program sends to the gateway.
use multi_market_prices.Prelude.{
  ℕ, ◌≡◌, refl, ap, sym, ◌∙◌, Bool, true, Option, none, some, List, [], ◌∷◌, ◌++◌, String,
  string_eq, nat_eq, is_some, lookup, lookup-assign, arith, inl, inr, Bool-cases, Option-cases,
}
use multi_market_prices.Binance.{Json}
use multi_market_prices.Feed.{gateway}
use multi_market_prices.Middleware.{MiddlewareEffect, send, receive, Record}
use multi_market_prices.Partition.{Engine, sub_unsub_key}
use multi_market_prices.Platform.{PlatformEffect, Platform, msg_cb, route, handle_book_keeping}
use multi_market_prices.Platform.Routing.{Book, keep_books}
use multi_market_prices.Programs.Benchmark.Words.{keep_books-append}

module _ {F : Type 0} (engine : Engine F) where
  pub route_table :
      (partition : ℕ) (fsm : F) (key topic : String) (is_sub : Bool) (s : Platform F)
      → (route engine partition fsm key topic is_sub s).0.symbol_to_dest_topics
        ≡ (handle_book_keeping key topic is_sub s.symbol_to_dest_topics).0
  unfolding route
  route_table partition fsm key topic is_sub s =
      elim (Bool-cases (handle_book_keeping key topic is_sub s.symbol_to_dest_topics).1) [
        | inl e ↦ rw e refl
        | inr e ↦ rw e refl
      ]

  pub route_known :
      (partition : ℕ) (fsm : F) (key topic : String) (is_sub : Bool) (s : Platform F) (q : ℕ)
      → is_some (lookup q s.partition_fsms) ≡ true
      → is_some (lookup q (route engine partition fsm key topic is_sub s).0.partition_fsms) ≡ true
  unfolding route
  route_known partition fsm key topic is_sub s q h =
      let handled = engine.handle_event fsm (sub_unsub_key key is_sub) in
      elim (Bool-cases (handle_book_keeping key topic is_sub s.symbol_to_dest_topics).1) [
        | inl e ↦ rw e (ground (arith, h, lookup-assign partition q handled.0 s.partition_fsms))
        | inr e ↦ rw e h
      ]

module _ {F V : Type 0} (engine : Engine F) (json : Json V)
    (disintegrate : String → String × String × String) (partition_for : String → ℕ) where
  -- The gateway gets each record that is sent, on the partition of its key.
  unfoldable pub take_messages : List MiddlewareEffect → Platform F → Option (Platform F)
  unfolding receive msg_cb
  take_messages [] s = some s
  take_messages (send r ∷ es) s =
      let m = receive (partition_for r.key) 0 r in
      elim (msg_cb engine (gateway json disintegrate) m.partition m.msg_type m.payload s) [
        | none ↦ none
        | some out ↦ take_messages es out.0
      ]
  take_messages (_ ∷ es) s = take_messages es s

  -- Every partition that a record can come on has a machine.
  abbrev pub HasMachines : Platform F → Type 0
  HasMachines s = (key : String) → is_some (lookup (partition_for key) s.partition_fsms) ≡ true

  pub record Handles (es : List MiddlewareEffect) (books : List Book) (s : Platform F)
      : Type 0 where
    pub after : Platform F
    pub handled : take_messages es s ≡ some after
    pub table : after.symbol_to_dest_topics ≡ keep_books books s.symbol_to_dest_topics
    pub known : HasMachines after

  abbrev pub result_of : Record → Platform F → Option (Platform F × List PlatformEffect)
  result_of r s =
      let m = receive (partition_for r.key) 0 r in
      msg_cb engine (gateway json disintegrate) m.partition m.msg_type m.payload s

  take_none :
      (r : Record) (es : List MiddlewareEffect) (s : Platform F)
      → result_of r s ≡ none
      → take_messages (send r ∷ es) s ≡ none
  unfolding take_messages
  take_none r es s e = rw (e, take_messages) refl

  pub take_some :
      (r : Record) (es : List MiddlewareEffect) (s : Platform F)
      (out : Platform F × List PlatformEffect)
      → result_of r s ≡ some out
      → take_messages (send r ∷ es) s ≡ take_messages es out.0
  unfolding take_messages
  take_some r es s out e = rw (e, take_messages) refl

  take_messages-append :
      (xs ys : List MiddlewareEffect) (s t : Platform F)
      → take_messages xs s ≡ some t
      → take_messages (xs ++ ys) s ≡ take_messages ys t
  unfolding take_messages
  take_messages-append [] ys s t h = cc h
  take_messages-append (send r ∷ xs) ys s t h = elim (Option-cases (result_of r s)) [
    | inl e ↦ cc (h, take_none r xs s e)
    | inr (out, e) ↦
        take_some r (xs ++ ys) s out e
        ∙ take_messages-append xs ys out.0 t (sym (take_some r xs s out e) ∙ h)
  ]
  take_messages-append (MiddlewareEffect.report f ∷ xs) ys s t h = take_messages-append xs ys s t h
  take_messages-append (MiddlewareEffect.respond_to n p b ∷ xs) ys s t h =
      take_messages-append xs ys s t h
  take_messages-append (MiddlewareEffect.pong n ∷ xs) ys s t h = take_messages-append xs ys s t h
  take_messages-append (MiddlewareEffect.handle n p ∷ xs) ys s t h =
      take_messages-append xs ys s t h
  take_messages-append (MiddlewareEffect.deliver m ∷ xs) ys s t h = take_messages-append xs ys s t h
  take_messages-append (MiddlewareEffect.request_shutdown ∷ xs) ys s t h =
      take_messages-append xs ys s t h

  pub append-Handles :
      (xs ys : List MiddlewareEffect) (bs cs : List Book) (s : Platform F)
      → Handles xs bs s
      → ((t : Platform F) → HasMachines t → Handles ys cs t)
      → Handles (xs ++ ys) (bs ++ cs) s
  append-Handles xs ys bs cs s first more =
      let rest = more first.after first.known in
      record {
        after = rest.after;
        handled = take_messages-append xs ys s first.after first.handled ∙ rest.handled;
        table =
            rest.table
            ∙ ap (keep_books cs) first.table
            ∙ sym (keep_books-append bs cs s.symbol_to_dest_topics);
        known = rest.known;
      }
