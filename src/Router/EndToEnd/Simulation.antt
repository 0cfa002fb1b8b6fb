-- ===== src/Router/EndToEnd/Simulation.antt =====
-- CrazyRouters.hpp: the two request routers do the same with requests and responses.
use multi_market_prices.Prelude.{
  ℕ, zero, suc, ◌≡◌, refl, ap, Bool, true, false, Option, none, some, List, [], ◌∷◌, ◌++◌, Eq,
  contains, insert, nat_eq, Map, Bool-cases, Option-cases, inl, inr,
}
use multi_market_prices.Router.PubSub.{Call, data_call, keyed_call, produce}
use multi_market_prices.Router.Requests
use multi_market_prices.Router.Requests.{
  GenericReqRespRouter, Action, responds, requests, cancels, Listener, Forwarder, Response, pop,
}
use multi_market_prices.Router.EndToEnd.{
  EndToEndReqRespRouter, cancel_request, deliver, enqueue, act, act_all, listen, forward, drain,
  request,
}

module _ {P N I D R : Type 0} ⦃eN : Eq N⦄ ⦃eI : Eq I⦄ (book : Map N P) where
  -- The generic router in the same state, with the responders' names as the types of requests.
  abbrev pub generic : EndToEndReqRespRouter N I D R → GenericReqRespRouter P N I D R
  generic r = record {
    self = r.self;
    req_pending = r.req_pending;
    req_router = r.req_router;
    pending_req_processors = r.pending_req_processors;
    pending_req_ids = r.pending_req_ids;
    responder_book = book;
  }

  cancel_request_lem :
      (r : EndToEndReqRespRouter N I D R) (id : I)
      → Requests.cancel_request (generic r) id
        ≡ (generic (cancel_request r id).0, (cancel_request r id).1)
  unfolding cancel_request Requests.cancel_request
  cancel_request_lem r id = elim (Bool-cases (contains id r.pending_req_ids)) [
    | inl e ↦ rw e refl
    | inr e ↦ rw e refl
  ]

  deliver_lem :
      (r : EndToEndReqRespRouter N I D R) (id : I) (is_last : Bool) (response : R)
      → Requests.deliver (generic r) id is_last response
        ≡ (generic (deliver r id is_last response).0, (deliver r id is_last response).1)
  unfolding deliver Requests.deliver
  deliver_lem r id true response = elim (Bool-cases (contains id r.pending_req_ids)) [
    | inl e ↦ rw e refl
    | inr e ↦ rw e refl
  ]
  deliver_lem r id false response = elim (Bool-cases (contains id r.pending_req_ids)) [
    | inl e ↦ rw e refl
    | inr e ↦ rw e refl
  ]

  enqueue_lem :
      (r : EndToEndReqRespRouter N I D R) (f : Forwarder N I D)
      → Requests.enqueue (generic r) f ≡ (generic (enqueue r f).0, (enqueue r f).1)
  unfolding enqueue Requests.enqueue
  enqueue_lem r f = elim (Bool-cases (contains f.req_id r.pending_req_ids)) [
    | inl e ↦ rw e refl
    | inr e ↦ rw e refl
  ]

  act_lem :
      (r : EndToEndReqRespRouter N I D R) (id : I) (a : Action N I D R)
      → Requests.act (generic r) id a ≡ (generic (act r id a).0, (act r id a).1)
  unfolding act Requests.act
  act_lem r id (responds is_last response) = deliver_lem r id is_last response
  act_lem r id (requests new responder d) =
      ap (λ u. (u.0, []))
        (enqueue_lem r (record { req_id = new; req_type = responder; req_data = d }))
  act_lem r id (cancels other) = ap (λ u. (u.0, [])) (cancel_request_lem r other)

  act_all_lem :
      (r : EndToEndReqRespRouter N I D R) (id : I) (actions : List (Action N I D R))
      → Requests.act_all (generic r) id actions
        ≡ (generic (act_all r id actions).0, (act_all r id actions).1)
  unfolding act_all Requests.act_all
  act_all_lem r id [] = refl
  act_all_lem r id (a ∷ more) = rw (act_lem r id a, act_all_lem (act r id a).0 id more) refl

  listen_lem :
      (r : EndToEndReqRespRouter N I D R) (id : I)
      (calls : List (Call N ℕ (Listener N I D R) (Unit {0}) D))
      → Requests.listen (generic r) id calls
        ≡ (generic (listen r id calls).0, (listen r id calls).1)
  unfolding listen Requests.listen
  listen_lem r id [] = refl
  listen_lem r id (data_call s listener d ∷ calls) =
      rw (act_all_lem r id (listener d), listen_lem (act_all r id (listener d)).0 id calls) refl
  listen_lem r id (keyed_call s c k d ∷ calls) = listen_lem r id calls

  forward_lem :
      (r : EndToEndReqRespRouter N I D R) (f : Forwarder N I D)
      → Requests.forward (generic r) f ≡ (generic (forward r f).0, (forward r f).1)
  unfolding forward Requests.forward
  forward_lem r f =
      rw
        (listen_lem (record r { req_pending = true }) f.req_id
          (produce r.req_router f.req_type f.req_data).1)
        refl

  abbrev lift :
      Option (EndToEndReqRespRouter N I D R × List (Response I R))
      → Option (GenericReqRespRouter P N I D R × List (Response I R))
  lift none = none
  lift (some (r, out)) = some (generic r, out)

  waits_lem :
      (fuel : ℕ)
      → ((r : EndToEndReqRespRouter N I D R)
          → Requests.drain fuel (generic r) ≡ lift (drain fuel r))
      → (r : EndToEndReqRespRouter N I D R) (fs : List (Forwarder N I D))
      → Requests.drain (suc fuel) (generic (record r { pending_req_processors = fs }))
        ≡ lift (drain (suc fuel) (record r { pending_req_processors = fs }))
  unfolding drain Requests.drain
  waits_lem fuel next_lem r [] = refl
  waits_lem fuel next_lem r (f ∷ fs) =
      let q : EndToEndReqRespRouter N I D R = record r { pending_req_processors = f ∷ fs } in
      let next : EndToEndReqRespRouter N I D R = record (forward q f).0 {
        pending_req_processors = pop (forward q f).0.pending_req_processors;
      } in
      elim (Option-cases (drain fuel next)) [
        | inl e ↦ rw (forward_lem q f, next_lem next, e) refl
        | inr (o, e) ↦
            rw (forward_lem q f, next_lem next, e)
              (ap (λ u. some (generic o.0, u.1 ++ o.1)) (forward_lem q f))
      ]

  drain_lem :
      (fuel : ℕ) (r : EndToEndReqRespRouter N I D R)
      → Requests.drain fuel (generic r) ≡ lift (drain fuel r)
  unfolding drain Requests.drain
  drain_lem zero r = refl
  drain_lem (suc fuel) r = waits_lem fuel (drain_lem fuel) r r.pending_req_processors

  abbrev pub lifted :
      Option (EndToEndReqRespRouter N I D R × List (Response I R) × Bool)
      → Option (GenericReqRespRouter P N I D R × List (Response I R) × Bool)
  lifted none = none
  lifted (some (r, out, accepted)) = some (generic r, out, accepted)

  request_lem :
      (fuel : ℕ) (r : EndToEndReqRespRouter N I D R) (f : Forwarder N I D)
      → Requests.request fuel (generic r) f ≡ lifted (request fuel r f)
  unfolding request Requests.request
  request_lem fuel r f = elim (Bool-cases (contains f.req_id r.pending_req_ids)) [
    | inl e ↦ rw e refl
    | inr e ↦
        let q : EndToEndReqRespRouter N I D R = record r {
          pending_req_ids = insert f.req_id r.pending_req_ids;
        } in
        elim (Option-cases (drain fuel (forward q f).0)) [
          | inl g ↦ rw (e, forward_lem q f, drain_lem fuel (forward q f).0, g) refl
          | inr (o, g) ↦
              rw (e, forward_lem q f, drain_lem fuel (forward q f).0, g)
                (ap (λ u. some (generic o.0, u.1 ++ o.1, true)) (forward_lem q f))
        ]
  ]

  -- The two request routers in the same state, where the responders of the one are the types of the
  -- other: a request, whether it is made at the top or while another one is forwarded, a response and a
  -- cancellation give the same calls of the requesters, the same answer and again the same state, and
  -- a request runs out of fuel in both or in neither.
  pub router_equivalence :
      (fuel : ℕ) (r : EndToEndReqRespRouter N I D R) (f : Forwarder N I D) (id : I) (is_last : Bool)
      (response : R)
      → (Requests.request fuel (generic r) f ≡ lifted (request fuel r f))
        × (Requests.enqueue (generic r) f ≡ (generic (enqueue r f).0, (enqueue r f).1))
        × (Requests.deliver (generic r) id is_last response
            ≡ (generic (deliver r id is_last response).0, (deliver r id is_last response).1))
        × (Requests.cancel_request (generic r) id
            ≡ (generic (cancel_request r id).0, (cancel_request r id).1))
  router_equivalence fuel r f id is_last response = (
    request_lem fuel r f,
    enqueue_lem r f,
    deliver_lem r id is_last response,
    cancel_request_lem r id,
  )
