-- ===== src/Router/Requests/Weights.antt =====
-- CrazyRouters.hpp, `GenericReqRespRouter`: what forwarding a request adds to the queue, by weight.
use multi_market_prices.Prelude.{
  ℕ, ◌+◌, ◌≤◌, ◌≡◌, refl, ◌∙◌, Bool, true, List, [], ◌∷◌, ◌++◌, Eq, contains, inl, inr, Bool-cases,
  arith, nat_eq,
}
use mathlib.Core.List.{append-nil, append_assoc}
use multi_market_prices.Router.PubSub.{Call, data_call, keyed_call, produce}
use multi_market_prices.Router.Requests.{
  Action, responds, requests, cancels, Listener, Forwarder, GenericReqRespRouter, cancel_request,
  deliver, enqueue, act, act_all, listen, forward,
}

module _ {T I D : Type 0} (w : Forwarder T I D → ℕ) where
  -- The weight of waiting requests, and of those that a listener or a list of calls may send.
  abbrev pub load : List (Forwarder T I D) → ℕ
  load [] = 0
  load (f ∷ fs) = w f + load fs

  pub load-append : (fs gs : List (Forwarder T I D)) → load (fs ++ gs) ≡ load fs + load gs
  load-append [] gs = omega arith
  load-append (f ∷ fs) gs = omega (arith, load-append fs gs)

  module _ {R : Type 0} where
    abbrev pub sends : List (Action T I D R) → ℕ
    sends [] = 0
    sends (responds _ _ ∷ rest) = sends rest
    sends (requests i t d ∷ rest) =
        w (record { req_id = i; req_type = t; req_data = d }) + sends rest
    sends (cancels _ ∷ rest) = sends rest

    pub sends-cons :
        (a : Action T I D R) (as' : List (Action T I D R))
        → sends (a ∷ as') ≡ sends (a ∷ []) + sends as'
    sends-cons (responds l x) as' = omega arith
    sends-cons (requests i t d) as' = omega arith
    sends-cons (cancels i) as' = omega arith

    abbrev pub calls_send : List (Call T ℕ (Listener T I D R) (Unit {0}) D) → ℕ
    calls_send [] = 0
    calls_send (data_call _ listener d ∷ calls) = sends (listener d) + calls_send calls
    calls_send (keyed_call _ _ _ _ ∷ calls) = calls_send calls

module _ {N T I D R : Type 0} ⦃eT : Eq T⦄ ⦃eI : Eq I⦄ (w : Forwarder T I D → ℕ) where
  -- What a piece of a listener does to the queue: it appends, within a weight, and the listeners stay.
  pub record Appends (r r' : GenericReqRespRouter N T I D R) (budget : ℕ) : Type 0 where
    pub more : List (Forwarder T I D)
    pub queue : r'.pending_req_processors ≡ r.pending_req_processors ++ more
    pub within : load w more ≤ budget
    pub same_listeners : r'.req_router ≡ r.req_router

  Appends-none :
      (r r' : GenericReqRespRouter N T I D R) (n : ℕ)
      → r'.pending_req_processors ≡ r.pending_req_processors
      → r'.req_router ≡ r.req_router
      → Appends r r' n
  Appends-none r r' n q s = record {
    more = [];
    queue = rw append-nil q;
    within = omega arith;
    same_listeners = s;
  }

  Appends-trans :
      (r r' r'' : GenericReqRespRouter N T I D R) (m n : ℕ)
      → Appends r r' m
      → Appends r' r'' n
      → Appends r r'' (m + n)
  Appends-trans r r' r'' m n a b = record {
    more = a.more ++ b.more;
    queue = b.queue ∙ (rw (a.queue, append_assoc) refl);
    within = omega (arith, load-append w a.more b.more);
    same_listeners = b.same_listeners ∙ a.same_listeners;
  }

  deliver-Appends :
      (r : GenericReqRespRouter N T I D R) (id : I) (l : Bool) (x : R)
      → Appends r (deliver r id l x).0 0
  unfolding deliver
  deliver-Appends r id l x = Appends-none r _ 0 (ground arith) (ground arith)

  act-Appends :
      (r : GenericReqRespRouter N T I D R) (id : I) (a : Action T I D R)
      → Appends r (act r id a).0 (sends w (a ∷ []))
  unfolding act enqueue cancel_request
  act-Appends r id (responds l x) = deliver-Appends r id l x
  act-Appends r id (requests i t d) = elim (Bool-cases (contains i r.pending_req_ids)) [
    | inl h ↦ rw h (Appends-none r r _ refl refl)
    | inr h ↦ rw h (record {
      more = record { req_id = i; req_type = t; req_data = d } ∷ [];
      queue = refl;
      within = omega arith;
      same_listeners = refl;
    })
  ]
  act-Appends r id (cancels i) = Appends-none r _ 0 (ground arith) (ground arith)

  act_all-Appends :
      (r : GenericReqRespRouter N T I D R) (id : I) (l : List (Action T I D R))
      → Appends r (act_all r id l).0 (sends w l)
  unfolding act_all
  act_all-Appends r id [] = Appends-none r r 0 refl refl
  act_all-Appends r id (a ∷ l) = rw (sends-cons w a l) (
      Appends-trans r (act r id a).0 _ _ _ (act-Appends r id a)
        (act_all-Appends (act r id a).0 id l))

  listen-Appends :
      (r : GenericReqRespRouter N T I D R) (id : I)
      (calls : List (Call T ℕ (Listener T I D R) (Unit {0}) D))
      → Appends r (listen r id calls).0 (calls_send w calls)
  unfolding listen
  listen-Appends r id [] = Appends-none r r 0 refl refl
  listen-Appends r id (data_call s l d ∷ calls) =
      Appends-trans r (act_all r id (l d)).0 _ _ _ (act_all-Appends r id (l d))
        (listen-Appends (act_all r id (l d)).0 id calls)
  listen-Appends r id (keyed_call s l k d ∷ calls) = listen-Appends r id calls

  abbrev pub forward_sends : GenericReqRespRouter N T I D R → Forwarder T I D → ℕ
  forward_sends r f = calls_send w (produce r.req_router f.req_type f.req_data).1

  pub forward-Appends :
      (r : GenericReqRespRouter N T I D R) (f : Forwarder T I D)
      → Appends r (forward r f).0 (forward_sends r f)
  unfolding forward
  forward-Appends r f =
      let a =
        listen-Appends (record r { req_pending = true }) f.req_id
          (produce r.req_router f.req_type f.req_data).1 in
      record {
        more = a.more;
        queue = a.queue;
        within = a.within;
        same_listeners = a.same_listeners;
      }
