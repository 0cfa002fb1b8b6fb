-- ===== src/Programs/Benchmark/Counting.antt =====
-- BinanceMDPerformanceTests.cpp, `msgCb`: what the counters hold.
use multi_market_prices.Prelude.{
  ℕ, suc, length, ap, ◌∙◌, eq_of_==, ◌+◌, ◌^◌, ◌%◌, ◌||◌, ◌≡◌, refl, true, false, List, [], ◌∷◌,
  String, string_eq, string_dec, ◌==◌, if◌then◌else◌, arith, inl, inr, Bool-cases,
}
use multi_market_prices.Constants.Messages.{MessageType, message_type_text}
use multi_market_prices.Middleware.{Message}
use multi_market_prices.Programs.Benchmark.{Counters, no_messages, msg_cb, receive_each}

-- How many messages have a type, and how many are neither of trades nor of depths.
abbrev pub count_type : MessageType → List Message → ℕ
count_type t [] = 0
count_type t (m ∷ ms) =
    if m.msg_type == message_type_text t then suc (count_type t ms) else count_type t ms

abbrev pub count_others : List Message → ℕ
count_others [] = 0
count_others (m ∷ ms) =
    if m.msg_type == message_type_text MessageType.trade_update
      || m.msg_type == message_type_text MessageType.depth_update
    then count_others ms
    else suc (count_others ms)

-- The counters stand for these numbers.
record IsAt (trades depths others : ℕ) (c : Counters) : Type 0 where
  trades_at : c.num_trade_updates_recd ≡ trades % 2 ^ 64
  depths_at : c.num_depth_updates_recd ≡ depths % 2 ^ 64
  others_at : c.num_other_messages_recd ≡ others % 2 ^ 64

next_mod : (n k : ℕ) → n ≡ k % 2 ^ 64 → (n + 1) % 2 ^ 64 ≡ suc k % 2 ^ 64
next_mod n k e = omega (arith, e)

trade_is_not_depth : (t : String) → (t == "trade_update") ≡ true → (t == "depth_update") ≡ false
unfolding string_dec
trade_is_not_depth t e = rw (eq_of_== t "trade_update" e) refl

module _ (m : Message) (trades depths others : ℕ) (c : Counters) where
  abbrev IsNext : Type 0
  IsNext =
      IsAt (if m.msg_type == "trade_update" then suc trades else trades)
        (if m.msg_type == "depth_update" then suc depths else depths)
        (if m.msg_type == "trade_update" || m.msg_type == "depth_update"
          then others
          else suc others)
        (msg_cb m c)

  msg_cb-IsNext : IsAt trades depths others c → IsNext
  unfolding msg_cb
  msg_cb-IsNext a = elim (Bool-cases (m.msg_type == "trade_update")) [
    | inl e ↦
        rw (e, trade_is_not_depth m.msg_type e)
          (record {
            trades_at = next_mod c.num_trade_updates_recd trades a.trades_at;
            depths_at = a.depths_at;
            others_at = a.others_at;
          })
    | inr e ↦ elim (Bool-cases (m.msg_type == "depth_update")) [
      | inl f ↦
          rw (e, f)
            (record {
              trades_at = a.trades_at;
              depths_at = next_mod c.num_depth_updates_recd depths a.depths_at;
              others_at = a.others_at;
            })
      | inr f ↦
          rw (e, f)
            (record {
              trades_at = a.trades_at;
              depths_at = a.depths_at;
              others_at = next_mod c.num_other_messages_recd others a.others_at;
            })
    ]
  ]

receive_each-IsAt :
    (ms : List Message) (a b o : ℕ) (c : Counters)
    → IsAt a b o c
    → IsAt
        (a + count_type MessageType.trade_update ms)
        (b + count_type MessageType.depth_update ms)
        (o + count_others ms)
        (receive_each ms c)
unfolding receive_each
receive_each-IsAt [] a b o c v = record {
  trades_at = omega (arith, v.trades_at);
  depths_at = omega (arith, v.depths_at);
  others_at = omega (arith, v.others_at);
}
receive_each-IsAt (m ∷ ms) a b o c v =
    let rest =
      receive_each-IsAt ms (if m.msg_type == "trade_update" then suc a else a)
        (if m.msg_type == "depth_update" then suc b else b)
        (if m.msg_type == "trade_update" || m.msg_type == "depth_update" then o else suc o)
        (msg_cb m c) (msg_cb-IsNext m a b o c v) in
    record {
      trades_at = rest.trades_at ∙ ap (λ n. n % 2 ^ 64) (ground arith);
      depths_at = rest.depths_at ∙ ap (λ n. n % 2 ^ 64) (ground arith);
      others_at = rest.others_at ∙ ap (λ n. n % 2 ^ 64) (ground arith);
    }

all_counted :
    (ms : List Message)
    → count_type MessageType.trade_update ms
        + count_type MessageType.depth_update ms
        + count_others ms
      ≡ length ms
all_counted [] = refl
all_counted (m ∷ ms) = ground (arith, all_counted ms, trade_is_not_depth m.msg_type)

-- Whatever messages arrive, each counter holds, as a number of 64 bits, how many of them were of its
-- type, the last how many were of neither type; and the three numbers add up to all the messages, so
-- that none is counted twice or not at all.
pub receive_each_lem :
    (ms : List Message)
    → let r = receive_each ms no_messages in
      (r.num_trade_updates_recd ≡ count_type MessageType.trade_update ms % 2 ^ 64)
      × (r.num_depth_updates_recd ≡ count_type MessageType.depth_update ms % 2 ^ 64)
      × (r.num_other_messages_recd ≡ count_others ms % 2 ^ 64)
      × (count_type MessageType.trade_update ms
            + count_type MessageType.depth_update ms
            + count_others ms
          ≡ length ms)
receive_each_lem ms =
    let v =
      receive_each-IsAt ms 0 0 0 no_messages
        (record { trades_at = refl; depths_at = refl; others_at = refl }) in
    (
      omega (arith, v.trades_at),
      omega (arith, v.depths_at),
      omega (arith, v.others_at),
      all_counted ms,
    )
