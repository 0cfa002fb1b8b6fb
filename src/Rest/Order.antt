-- ===== src/Rest/Order.antt =====
-- MDGateways/Binance/RestApi.cpp, class `BinanceRestClient`: every request is answered once, in order.
use multi_market_prices.Prelude.{
  ◌≡◌, refl, ap, sym, ◌∙◌, Option, none, some, List, [], ◌∷◌, ◌++◌, arith,
}
use mathlib.Core.List.{append_assoc, append-nil}
use multi_market_prices.Rest.{
  RestError, RestClient, RestEffect, answer, JsonLib, PendingRequest, no_data, enqueue, answer_all,
  close_connection, give_up, fail, stop, on_handshake, on_read, on_write, on_resolve, on_connect,
  on_reconnect_timer, start_next_request,
}
use multi_market_prices.Rest.Exchange.{
  Link, RestEvent, launched, timed, resolved, joined, shaken, written, received, handle, step, run,
}

-- The callbacks that are answered, that wait, and that are launched, in order.
abbrev pub answered : {C Obj : Type 0} → List (RestEffect C Obj) → List (Option C)
answered [] = []
answered (answer cb obj ec ∷ es) = cb ∷ answered es
answered (_ ∷ es) = answered es

abbrev pub callbacks : {C : Type 0} → List (PendingRequest C) → List (Option C)
callbacks [] = []
callbacks (req ∷ reqs) = req.callback ∷ callbacks reqs

abbrev pub launches : {C : Type 0} → List (RestEvent C) → List (Option C)
launches [] = []
launches (launched req ∷ es) = req.callback ∷ launches es
launches (_ ∷ es) = launches es

pub answered-append :
    {C Obj : Type 0} (es fs : List (RestEffect C Obj))
    → answered (es ++ fs) ≡ answered es ++ answered fs
answered-append [] fs = refl
answered-append (e ∷ es) fs = ground (arith, answered-append es fs)

callbacks-append :
    {C : Type 0} (xs ys : List (PendingRequest C))
    → callbacks (xs ++ ys) ≡ callbacks xs ++ callbacks ys
callbacks-append [] ys = refl
callbacks-append (x ∷ xs) ys = ap (λ l. x.callback ∷ l) (callbacks-append xs ys)

module _ {C Obj Val : Type 0} (lib : JsonLib Obj Val) where
  -- What a handler answers and what then waits are what waited before, and the new ones.
  abbrev pub Conserves :
      List (Option C) → RestClient C → RestClient C × List (RestEffect C Obj) → Type 0
  Conserves new r out = answered out.1 ++ callbacks out.0.queue ≡ callbacks r.queue ++ new

  answered-answer_all :
      (reqs : List (PendingRequest C)) (ec : RestError) (es : List (RestEffect C Obj))
      → answered (answer_all lib reqs ec ++ es) ≡ callbacks reqs ++ answered es
  unfolding answer_all
  answered-answer_all [] ec es = refl
  answered-answer_all (x ∷ reqs) ec es = ap (λ l. x.callback ∷ l) (answered-answer_all reqs ec es)

  enqueue-Conserves :
      (req : PendingRequest C) (r : RestClient C)
      → Conserves (req.callback ∷ []) r (enqueue lib req r)
  unfolding enqueue
  enqueue-Conserves req r = ground (arith, callbacks-append r.queue (req ∷ []))

  close_connection-Conserves : (r : RestClient C) → Conserves [] r (close_connection lib r)
  unfolding close_connection
  close_connection-Conserves r = ground (
    arith,
    append-nil (callbacks r.queue),
    answered-answer_all r.queue no_data (RestEffect.shutdown ∷ []),
  )

  fatal-answers :
      (reqs : List (PendingRequest C)) (ec : RestError)
      → answered {Obj = Obj} (
          (answer_all lib reqs no_data ++ RestEffect.shutdown ∷ [])
          ++ RestEffect.ready (some ec) ∷ [])
        ≡ callbacks reqs
  fatal-answers reqs ec =
      answered-append (answer_all lib reqs no_data ++ RestEffect.shutdown ∷ [])
        (RestEffect.ready (some ec) ∷ [])
      ∙ append-nil (answered (answer_all lib reqs no_data ++ RestEffect.shutdown ∷ []))
      ∙ answered-answer_all reqs no_data (RestEffect.shutdown ∷ [])
      ∙ append-nil (callbacks reqs)

  give_up-Conserves : (ec : RestError) (r : RestClient C) → Conserves [] r (give_up lib ec r)
  unfolding give_up close_connection answer_all
  give_up-Conserves ec r =
      append-nil (answered (give_up lib ec r).1)
      ∙ fatal-answers r.queue ec
      ∙ sym (append-nil (callbacks r.queue))

  fail-Conserves : (ec : RestError) (r : RestClient C) → Conserves [] r (fail lib ec r)
  unfolding fail
  fail-Conserves ec r = ground (arith, append-nil (callbacks r.queue), give_up-Conserves ec r)

  -- Each handler, on each outcome.
  handle-Conserves :
      (e : RestEvent C) (r : RestClient C) → Conserves (launches (e ∷ [])) r (handle lib e r)
  unfolding handle on_reconnect_timer on_resolve on_connect on_handshake on_write on_read
      start_next_request
  handle-Conserves (launched req) r = enqueue-Conserves req r
  handle-Conserves timed r = ground (arith, append-nil (callbacks r.queue))
  handle-Conserves (resolved none) r = ground (arith, append-nil (callbacks r.queue))
  handle-Conserves (resolved (some ec)) r = fail-Conserves ec r
  handle-Conserves (joined none none) r = ground (arith, append-nil (callbacks r.queue))
  handle-Conserves (joined none (some ec)) r = fail-Conserves ec r
  handle-Conserves (joined (some ec) sni) r = fail-Conserves ec r
  handle-Conserves (shaken none) r = ground (arith, append-nil (callbacks r.queue))
  handle-Conserves (shaken (some ec)) r = fail-Conserves ec r
  handle-Conserves (written none) r = ground (arith, append-nil (callbacks r.queue))
  handle-Conserves (written (some ec)) r = fail-Conserves ec r
  handle-Conserves (received none body) r = ground (arith, append-nil (callbacks r.queue))
  handle-Conserves (received (some ec) body) r = fail-Conserves ec r

  launches-cons :
      (e : RestEvent C) (es : List (RestEvent C))
      → launches (e ∷ es) ≡ launches (e ∷ []) ++ launches es
  launches-cons e es = ground arith

  -- Through any sequence of launched requests, fired timers and completed operations, with errors or
  -- without: the callbacks that have been answered, in the order of their answers, followed by those of
  -- the queue, are the callbacks of the first queue followed by those of the requests that were
  -- launched, in their order. So no request is lost, answered twice or overtaken.
  pub answered-run :
      (es : List (RestEvent C)) (w : Link C)
      → answered (run lib es w).1 ++ callbacks (run lib es w).0.client.queue
        ≡ callbacks w.client.queue ++ launches es
  unfolding run step
  answered-run [] w = ground (arith, append-nil (callbacks w.client.queue))
  answered-run (e ∷ es) w =
      let first = step lib e w in
      let rest = run lib es first.0 in
      ground (
        arith,
        answered-append first.1 rest.1,
        answered-run es first.0,
        handle-Conserves e w.client,
        launches-cons e es,
        append_assoc (answered first.1) (answered rest.1) (callbacks rest.0.client.queue),
        append_assoc (answered first.1) (callbacks first.0.client.queue) (launches es),
        append_assoc (callbacks w.client.queue) (launches (e ∷ [])) (launches es),
      )

  -- `stop` answers every waiting request, in order, and leaves none.
  pub stop-Conserves :
      (r : RestClient C)
      → (answered (stop lib r).1 ≡ callbacks r.queue) × ((stop lib r).0.queue ≡ [])
  unfolding close_connection
  stop-Conserves r = ground (
    arith,
    append-nil (callbacks r.queue),
    answered-answer_all r.queue no_data (RestEffect.shutdown ∷ []),
  )
