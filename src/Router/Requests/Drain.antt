-- ===== src/Router/Requests/Drain.antt =====
-- CrazyRouters.hpp, `GenericReqRespRouter`: the queue of waiting requests, and when `request` returns.
use multi_market_prices.Prelude.{
  ℕ, zero, suc, ◌<◌, ◌≡◌, refl, ap, ◌∙◌, Bool, true, false, Option, some, List, [], ◌∷◌, ◌++◌, Eq,
  not, contains, insert, inl, inr, Bool-cases, arith, nat_eq,
}
use multi_market_prices.Router.Requests.{
  Forwarder, Response, GenericReqRespRouter, forward, pop, drain, request,
}
use multi_market_prices.Router.Requests.Weights.{load, load-append, forward_sends, forward-Appends}

module _ {N T I D R : Type 0} ⦃eT : Eq T⦄ ⦃eI : Eq I⦄ (w : Forwarder T I D → ℕ) where
  -- Every request that a listener sends weighs less than the one it handles.
  abbrev pub Decreases : GenericReqRespRouter N T I D R → Type 0
  Decreases r = (f : Forwarder T I D) → forward_sends w r f < w f

  -- What `request` leaves when it returns.
  pub record Drained (r : GenericReqRespRouter N T I D R)
      (result : Option (GenericReqRespRouter N T I D R × List (Response I R))) : Type 0 where
    pub final : GenericReqRespRouter N T I D R
    pub outputs : List (Response I R)
    pub returned : result ≡ some (final, outputs)
    pub nothing_waits : final.pending_req_processors ≡ []
    pub idle : r.req_pending ≡ false → final.req_pending ≡ false
    pub same_listeners : final.req_router ≡ r.req_router

  drain-Drained :
      (fuel : ℕ) (r : GenericReqRespRouter N T I D R)
      → Decreases r
      → load w r.pending_req_processors < fuel
      → (q : List (Forwarder T I D)) → r.pending_req_processors ≡ q
      → Drained r (drain fuel r)
  unfolding drain forward
  drain-Drained zero r h lt q e = absurd (omega arith)
  drain-Drained (suc fuel) r h lt [] e =
      rw (e, drain)
        (record {
          final = r;
          outputs = [];
          returned = refl;
          nothing_waits = e;
          idle = λ i. i;
          same_listeners = refl;
        })
  drain-Drained (suc fuel) r h lt (f ∷ q) e =
      let a = forward-Appends w r f in
      let r' = (forward r f).0 in
      let left : List (Forwarder T I D) = q ++ a.more in
      let popped : pop r'.pending_req_processors ≡ left = rw (a.queue, e) refl in
      let next = record r' { pending_req_processors = pop r'.pending_req_processors } in
      let rest =
        drain-Drained fuel next (λ g. rw a.same_listeners (h g))
          (rw popped (omega (arith, load-append w q a.more, a.within, h f, ap (load w) e))) left
          popped in
      rw (e, drain)
        (rw rest.returned (record {
          final = rest.final;
          outputs = (forward r f).1 ++ rest.outputs;
          returned = refl;
          nothing_waits = rest.nothing_waits;
          idle = λ _. rest.idle refl;
          same_listeners = rest.same_listeners ∙ a.same_listeners;
        }))

  -- The outcome of a call of `request` from outside.
  pub record Returns (r : GenericReqRespRouter N T I D R) (f : Forwarder T I D)
      (result : Option (GenericReqRespRouter N T I D R × List (Response I R) × Bool)) : Type 0 where
    pub final : GenericReqRespRouter N T I D R
    pub outputs : List (Response I R)
    pub returned : result ≡ some (final, outputs, not (contains f.req_id r.pending_req_ids))
    pub nothing_waits : final.pending_req_processors ≡ []
    pub idle : final.req_pending ≡ false
    pub same_listeners : final.req_router ≡ r.req_router

  module _ (fuel : ℕ) (r : GenericReqRespRouter N T I D R) (f : Forwarder T I D) where
    -- The state in which the accepted request has been forwarded.
    forwarded : GenericReqRespRouter N T I D R × List (Response I R)
    forwarded = forward (record r { pending_req_ids = insert f.req_id r.pending_req_ids }) f

    request_accepted :
        (final : GenericReqRespRouter N T I D R) (outs : List (Response I R))
        → contains f.req_id r.pending_req_ids ≡ false
        → drain fuel forwarded.0 ≡ some (final, outs)
        → request fuel r f ≡ some (final, forwarded.1 ++ outs, true)
    unfolding request forwarded
    request_accepted final outs h e = rw (h, e) refl

    -- Where every request that a listener sends weighs less than the one it handles, and no request
    -- is being forwarded or waits, request returns with fuel above the weight of the request: it
    -- reports false exactly where the id is pending already, and afterwards no request waits, none is
    -- being forwarded, and the same listeners are registered.
    pub request-Returns :
        Decreases r
        → r.pending_req_processors ≡ []
        → r.req_pending ≡ false
        → w f < fuel
        → Returns r f (request fuel r f)
    unfolding forwarded
    request-Returns h q i lt = elim (Bool-cases (contains f.req_id r.pending_req_ids)) [
      | inl old ↦
          unfold request in
          rw (old, request)
            (record {
              final = r;
              outputs = [];
              returned = rw old refl;
              nothing_waits = q;
              idle = i;
              same_listeners = refl;
            })
      | inr new ↦
          let r' = record r { pending_req_ids = insert f.req_id r.pending_req_ids } in
          let a = forward-Appends w r' f in
          let waiting : (forward r' f).0.pending_req_processors ≡ a.more =
            a.queue ∙ ap (λ z. z ++ a.more) q in
          let d =
            drain-Drained fuel (forward r' f).0 (λ g. rw a.same_listeners (h g))
              (rw waiting (omega (arith, a.within, h f))) a.more waiting in
          record {
            final = d.final;
            outputs = (forward r' f).1 ++ d.outputs;
            returned = rw new (request_accepted d.final d.outputs new d.returned);
            nothing_waits = d.nothing_waits;
            idle = d.idle (unfold forward in refl);
            same_listeners = d.same_listeners ∙ a.same_listeners;
          }
    ]
