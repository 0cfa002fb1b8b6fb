-- ===== src/Rest/Phase.antt =====
-- MDGateways/Binance/RestApi.cpp, class `BinanceRestClient`: when a request is being written or read.
use multi_market_prices.Prelude.{
  ℕ, ◌≡◌, refl, ap, ◌∙◌, Bool, true, false, not, ◌&&◌, none, some, List, [], ◌∷◌, ◌++◌, String,
  is_empty, arith,
}
use mathlib.Core.List.{append_assoc}
use multi_market_prices.Rest.{
  RestError, RestClient, RestEffect, undefined, async_resolve, async_connect, async_handshake,
  async_write, async_read, arm_reconnect, JsonLib, PendingRequest, no_data, enqueue, answer_all,
  close_connection, give_up, fail, on_handshake, on_read, on_write, on_resolve, on_connect,
  on_reconnect_timer, start_next_request, new_client,
}
use multi_market_prices.Rest.Exchange.{
  Operation, nothing, resolving, Link, RestEvent, launched, timed, resolved, joined, shaken,
  written, received, IsEnabled, is_aborted, left_over, outstanding, handle, step, run,
}

abbrev pub is_exchange : Operation → Bool
is_exchange Operation.writing = true
is_exchange Operation.reading = true
is_exchange _ = false

abbrev pub is_setup : Operation → Bool
is_setup Operation.nothing = false
is_setup Operation.writing = false
is_setup Operation.reading = false
is_setup _ = true

-- A request is being written or read exactly if the client is connected and some request waits; while
-- a connection is being made the client is not connected.
pub record IsInPhase {C : Type 0} (w : Link C) : Type 0 where
  pub busy : is_exchange w.operation ≡ (w.client.connected && not (is_empty w.client.queue))
  pub down : (is_setup w.operation && w.client.connected) ≡ false

-- Starting from this outstanding operation: an operation is started only when none is outstanding, and
-- the front of an empty queue is never taken.
abbrev pub IsSerial : {C Obj : Type 0} → Operation → List (RestEffect C Obj) → Type 0
IsSerial o [] = Unit
IsSerial o (undefined ∷ es) = ⊥
IsSerial o (async_resolve ∷ es) = (o ≡ nothing) × IsSerial resolving es
IsSerial o (async_connect ∷ es) = (o ≡ nothing) × IsSerial Operation.connecting es
IsSerial o (async_handshake ∷ es) = (o ≡ nothing) × IsSerial Operation.shaking es
IsSerial o (async_write t ∷ es) = (o ≡ nothing) × IsSerial Operation.writing es
IsSerial o (async_read ∷ es) = (o ≡ nothing) × IsSerial Operation.reading es
IsSerial o (arm_reconnect n ∷ es) = (o ≡ nothing) × IsSerial Operation.waiting es
IsSerial o (_ ∷ es) = IsSerial o es

-- Every event is one that the outstanding operation can bring when it comes.
module _ {C Obj Val : Type 0} (lib : JsonLib Obj Val) where
  abbrev pub AreEnabled : Link C → List (RestEvent C) → Type 0
  unfolding step
  AreEnabled w [] = Unit
  AreEnabled w (e ∷ es) = IsEnabled w.operation e × AreEnabled (step lib e w).0 es

  -- So it is with the effects of each event in turn.
  abbrev pub AreSerial : Link C → List (RestEvent C) → Type 0
  unfolding step
  AreSerial w [] = Unit
  AreSerial w (e ∷ es) =
      IsSerial (left_over lib e w.operation) (step lib e w).1 × AreSerial (step lib e w).0 es

  IsSerial-answer_all :
      (reqs : List (PendingRequest C)) (ec : RestError) (es : List (RestEffect C Obj))
      (o : Operation)
      → IsSerial o es
      → IsSerial o (answer_all lib reqs ec ++ es)
  unfolding answer_all
  IsSerial-answer_all [] ec es o d = d
  IsSerial-answer_all (x ∷ reqs) ec es o d = IsSerial-answer_all reqs ec es o d

  outstanding-answer_all :
      (reqs : List (PendingRequest C)) (ec : RestError) (es : List (RestEffect C Obj))
      (o : Operation)
      → outstanding (answer_all lib reqs ec ++ es) o ≡ outstanding es o
  unfolding answer_all
  outstanding-answer_all [] ec es o = refl
  outstanding-answer_all (x ∷ reqs) ec es o = outstanding-answer_all reqs ec es o

  outstanding-give_up :
      (ec : RestError) (r : RestClient C) → outstanding (give_up lib ec r).1 nothing ≡ nothing
  unfolding give_up close_connection answer_all
  outstanding-give_up ec r =
      ap (λ es. outstanding es nothing)
        (append_assoc (answer_all lib r.queue no_data) (RestEffect.shutdown ∷ [])
          (RestEffect.ready (some ec) ∷ []))
      ∙ outstanding-answer_all r.queue no_data
          (RestEffect.shutdown ∷ RestEffect.ready (some ec) ∷ []) nothing

  give_up_state :
      (ec : RestError) (r : RestClient C)
      → ((give_up lib ec r).0.connected ≡ false) × ((give_up lib ec r).0.queue ≡ [])
  unfolding give_up close_connection
  give_up_state ec r = (refl, refl)

  fail-IsInPhase :
      (ec : RestError) (r : RestClient C)
      → is_aborted (some ec) ≡ false
      → IsInPhase
          (record { client = (fail lib ec r).0; operation = outstanding (fail lib ec r).1 nothing })
  unfolding fail
  fail-IsInPhase ec r a = record {
    busy = ground (arith, outstanding-give_up ec r, give_up_state ec r);
    down = ground (arith, outstanding-give_up ec r, give_up_state ec r);
  }

  IsSerial-give_up : (ec : RestError) (r : RestClient C) → IsSerial nothing (give_up lib ec r).1
  unfolding give_up close_connection answer_all
  IsSerial-give_up ec r =
      rw
        (append_assoc (answer_all {C = C} lib r.queue no_data) (RestEffect.shutdown ∷ [])
          (RestEffect.ready (some ec) ∷ []))
        (IsSerial-answer_all r.queue no_data (RestEffect.shutdown ∷ RestEffect.ready (some ec) ∷ [])
          nothing tt)

  IsSerial-fail : (ec : RestError) (r : RestClient C) → IsSerial nothing (fail lib ec r).1
  unfolding fail
  IsSerial-fail ec r = ground (arith, IsSerial-give_up ec r)

  step-IsInPhase :
      (e : RestEvent C) (w : Link C)
      → IsInPhase w
      → IsEnabled w.operation e
      → IsInPhase (step lib e w).0
  unfolding step handle enqueue start_next_request on_resolve on_connect on_handshake on_write
      on_read on_reconnect_timer
  step-IsInPhase (launched req) w v n = record {
    busy = ground (arith, v.busy, v.down);
    down = ground (arith, v.busy, v.down);
  }
  step-IsInPhase timed w v n = record {
    busy = ground (arith, v.busy, v.down);
    down = ground (arith, v.busy, v.down);
  }
  step-IsInPhase (resolved none) w v n = record {
    busy = ground (arith, v.busy, v.down);
    down = ground (arith, v.busy, v.down);
  }
  step-IsInPhase (resolved (some ec)) w v n = fail-IsInPhase ec w.client n.1
  step-IsInPhase (joined none none) w v n = record {
    busy = ground (arith, v.busy, v.down);
    down = ground (arith, v.busy, v.down);
  }
  step-IsInPhase (joined none (some ec)) w v n = fail-IsInPhase ec w.client n.2
  step-IsInPhase (joined (some ec) sni) w v n = fail-IsInPhase ec w.client n.1
  step-IsInPhase (shaken none) w v n = record {
    busy = ground (arith, v.busy, v.down);
    down = ground (arith, v.busy, v.down);
  }
  step-IsInPhase (shaken (some ec)) w v n = fail-IsInPhase ec w.client n.1
  step-IsInPhase (written none) w v n = record {
    busy = ground (arith, v.busy, v.down);
    down = ground (arith, v.busy, v.down);
  }
  step-IsInPhase (written (some ec)) w v n = fail-IsInPhase ec w.client n.1
  step-IsInPhase (received none body) w v n = record {
    busy = ground (arith, v.busy, v.down);
    down = ground (arith, v.busy, v.down);
  }
  step-IsInPhase (received (some ec) body) w v n = fail-IsInPhase ec w.client n.1

  IsSerial-step :
      (e : RestEvent C) (w : Link C)
      → IsInPhase w
      → IsEnabled w.operation e
      → IsSerial (left_over lib e w.operation) (step lib e w).1
  unfolding step handle enqueue start_next_request on_resolve on_connect on_handshake on_write
      on_read on_reconnect_timer
  IsSerial-step (launched req) w v n = ground (arith, v.busy, v.down)
  IsSerial-step timed w v n = ground (arith, v.busy, v.down)
  IsSerial-step (resolved none) w v n = ground (arith, v.busy, v.down)
  IsSerial-step (resolved (some ec)) w v n = IsSerial-fail ec w.client
  IsSerial-step (joined none none) w v n = ground (arith, v.busy, v.down)
  IsSerial-step (joined none (some ec)) w v n = IsSerial-fail ec w.client
  IsSerial-step (joined (some ec) sni) w v n = IsSerial-fail ec w.client
  IsSerial-step (shaken none) w v n = ground (arith, v.busy, v.down)
  IsSerial-step (shaken (some ec)) w v n = IsSerial-fail ec w.client
  IsSerial-step (written none) w v n = ground (arith, v.busy, v.down)
  IsSerial-step (written (some ec)) w v n = IsSerial-fail ec w.client
  IsSerial-step (received none body) w v n = ground (arith, v.busy, v.down)
  IsSerial-step (received (some ec) body) w v n = IsSerial-fail ec w.client

  -- From a client in phase, whatever the operations bring and whenever requests come: the client stays
  -- in phase, it starts an operation only when none is outstanding, and it never takes the front of
  -- an empty queue.
  pub run-IsInPhase :
      (es : List (RestEvent C)) (w : Link C)
      → IsInPhase w
      → AreEnabled w es
      → IsInPhase (run lib es w).0 × AreSerial w es
  unfolding run
  run-IsInPhase [] w v n = (v, tt)
  run-IsInPhase (e ∷ es) w v n =
      let first = step lib e w in
      let rest = run-IsInPhase es first.0 (step-IsInPhase e w v n.0) n.1 in
      (rest.0, (IsSerial-step e w v n.0, rest.1))

-- A new client that has been started.
abbrev pub started : {C : Type 0} → String → ℕ → Link C
unfolding new_client
started api_version interval = record {
  client = new_client api_version interval;
  operation = resolving;
}

pub started-IsInPhase :
    {C : Type 0} (api_version : String) (interval : ℕ)
    → IsInPhase (started {C = C} api_version interval)
unfolding new_client
started-IsInPhase api_version interval = record { busy = refl; down = refl }
