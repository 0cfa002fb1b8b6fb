-- ===== src/Rest/Draining.antt =====
-- MDGateways/Binance/RestApi.cpp, class `BinanceRestClient`: the queue is worked off, also after the
-- connection was lost.
use multi_market_prices.Prelude.{
  ◌≡◌, refl, ap, true, false, Option, none, some, List, [], ◌∷◌, String, arith, length,
}
use multi_market_prices.Rest.{
  RestError, RestClient, RestEffect, answer, async_write, JsonLib, PendingRequest, parse_body, fail,
  is_operation_aborted, on_handshake, on_read, on_write, on_resolve, on_connect, on_reconnect_timer,
  start_next_request,
}
use multi_market_prices.Rest.Exchange.{
  Operation, nothing, writing, Link, RestEvent, timed, resolved, joined, shaken, written, received,
  handle, step, run,
}

-- An answer: the callback, the object and the error that it is called with.
abbrev pub replies :
    {C Obj : Type 0} → List (RestEffect C Obj) → List (Option C × Obj × Option RestError)
replies [] = []
replies (answer cb obj ec ∷ es) = (cb, obj, ec) ∷ replies es
replies (_ ∷ es) = replies es

-- What is written: the targets.
abbrev pub writes : {C Obj : Type 0} → List (RestEffect C Obj) → List String
writes [] = []
writes (async_write target ∷ es) = target ∷ writes es
writes (_ ∷ es) = writes es

-- Each request is written and its response, with this body, is read.
abbrev pub serve : {C : Type 0} → List String → List (RestEvent C)
serve [] = []
serve (body ∷ bodies) = written none ∷ received none body ∷ serve bodies

abbrev pub pair_up :
    {C Obj Val : Type 0}
    → JsonLib Obj Val
    → List (PendingRequest C)
    → List String
    → List (Option C × Obj × Option RestError)
pair_up lib (req ∷ reqs) (body ∷ bodies) =
    (req.callback, parse_body lib body, none) ∷ pair_up lib reqs bodies
pair_up lib _ _ = []

-- The targets of the requests behind the first.
abbrev pub targets_after : {C : Type 0} → List (PendingRequest C) → List String
targets_after [] = []
targets_after (req ∷ []) = []
targets_after (req ∷ req' ∷ reqs) = req'.target ∷ targets_after (req' ∷ reqs)

-- The operation with which the queue is worked off.
abbrev pub working : {C : Type 0} → List (PendingRequest C) → Operation
working [] = nothing
working (req ∷ reqs) = writing

abbrev pub up : {C : Type 0} → RestClient C → List (PendingRequest C) → Link C
up r queue = record {
  client = record r { connected = true; connected_once = true; queue = queue };
  operation = working queue;
}

module _ {C Obj Val : Type 0} (lib : JsonLib Obj Val) (r : RestClient C) where
  -- When as many responses come as requests wait on a client that is connected and is writing the
  -- first, each request is answered, in order, with the object made of its own response and no
  -- error, and the targets of the others are written, in order; then nothing waits and no operation
  -- is outstanding.
  pub serve-drains :
      (queue : List (PendingRequest C)) (bodies : List String)
      → length bodies ≡ length queue
      → ((run lib (serve bodies) (up r queue)).0 ≡ up r [])
        × (replies (run lib (serve bodies) (up r queue)).1 ≡ pair_up lib queue bodies)
        × (writes (run lib (serve bodies) (up r queue)).1 ≡ targets_after queue)
  unfolding run step handle on_write on_read start_next_request
  serve-drains [] [] e = (refl, refl, refl)
  serve-drains [] (body ∷ bodies) e = ground arith
  serve-drains (req ∷ []) [] e = ground arith
  serve-drains (req ∷ []) (body ∷ []) e = (refl, refl, refl)
  serve-drains (req ∷ []) (body ∷ body' ∷ bodies) e = ground arith
  serve-drains (req ∷ req' ∷ reqs) [] e = ground arith
  serve-drains (req ∷ req' ∷ reqs) (body ∷ bodies) e =
      let rest = serve-drains (req' ∷ reqs) bodies (omega (arith, e)) in
      (
        rest.0,
        ap (λ l. (req.callback, parse_body lib body, none) ∷ l) rest.1,
        ap (λ l. req'.target ∷ l) rest.2,
      )

  -- The connection is made again: the timer fires, and every operation succeeds.
  abbrev pub remade : List (RestEvent C)
  remade = timed ∷ resolved none ∷ joined none none ∷ shaken none ∷ []

  lost_state :
      (ec : RestError) (queue : List (PendingRequest C))
      → is_operation_aborted ec ≡ false
      → fail {C = C} lib ec (up r queue).client ≡ (
        record (up r queue).client { connected = false },
        RestEffect.cancel_timer ∷ RestEffect.arm_reconnect r.retry_interval_sec ∷ [],
      )
  unfolding fail
  lost_state ec queue a = ground arith

  -- A client that was connected, with a request that waits: when the write or the read of that
  -- request fails with an error other than `operation_aborted`, and the connection is then made
  -- again, the same requests wait, none has been answered meanwhile, and from the failure on one
  -- thing was written, the target of that request, whose writing is the operation that is
  -- outstanding.
  pub lost-recovers :
      (ec : RestError) (body : String) (req : PendingRequest C) (reqs : List (PendingRequest C))
      → is_operation_aborted ec ≡ false
      → let by_write = run lib (written (some ec) ∷ remade) (up r (req ∷ reqs)) in
        let by_read =
          run lib (written none ∷ received (some ec) body ∷ remade) (up r (req ∷ reqs)) in
        (by_write.0 ≡ up r (req ∷ reqs))
        × (replies by_write.1 ≡ [])
        × (writes by_write.1 ≡ req.target ∷ [])
        × (by_read.0 ≡ up r (req ∷ reqs))
        × (replies by_read.1 ≡ [])
        × (writes by_read.1 ≡ req.target ∷ [])
  unfolding run step handle on_write on_read on_resolve on_connect on_handshake on_reconnect_timer
      start_next_request
  lost-recovers ec body req reqs a =
      rw (lost_state ec (req ∷ reqs) a) (refl, refl, refl, refl, refl, refl)
