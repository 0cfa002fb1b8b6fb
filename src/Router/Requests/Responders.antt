-- ===== src/Router/Requests/Responders.antt =====
-- CrazyRouters.hpp, `GenericReqRespRouter`: the registrations of responders and the two tables that
-- hold them.
use multi_market_prices.Prelude.{
  ◌≡◌, not, ◌&&◌, Option, none, some, Eq, ◌==◌, if◌then◌else◌, is_some, lookup, arith, nat_eq,
  lookup-assign, lookup-remove, inl, inr, Bool-cases,
}
use multi_market_prices.Router.PubSub.Views.{subscription, subscription-consume, consume-fresh}
use multi_market_prices.Router.PubSub.Invariant.{IsConsistent, consume-IsConsistent}
use multi_market_prices.Router.PubSub.Unregister.{subscription-unregister, unregister-IsConsistent}
use multi_market_prices.Router.Requests.{
  Listener, GenericReqRespRouter, register_as_responder, unregister_as_responder,
}

module _ {N T I D R : Type 0} ⦃eT : Eq T⦄ where
  -- The listener that requests of a type reach.
  abbrev pub listener_of : GenericReqRespRouter N T I D R → T → Option (Listener T I D R)
  listener_of r type = subscription r.req_router type r.self

  -- A type has a listener exactly if the book names its responder.
  pub record IsBooked (r : GenericReqRespRouter N T I D R) : Type 0 where
    pub consistent : IsConsistent r.req_router
    pub booked : (t : T) → is_some (lookup t r.responder_book) ≡ is_some (listener_of r t)

  module _ (r : GenericReqRespRouter N T I D R) (v : IsBooked r) (n : N) (t : T) where
    register-booked :
        (l : Listener T I D R) (u : T)
        → is_some (lookup u (register_as_responder r n t l).0.responder_book)
          ≡ is_some (listener_of (register_as_responder r n t l).0 u)
    unfolding register_as_responder
    register-booked l u = ground (
      arith,
      v.booked u,
      v.booked t,
      subscription-consume r.req_router t u r.self r.self l,
      consume-fresh r.req_router t r.self l,
      lookup-assign t u n r.responder_book,
    )

    register-IsConsistent :
        (l : Listener T I D R) → IsConsistent (register_as_responder r n t l).0.req_router
    unfolding register_as_responder
    register-IsConsistent l = elim (Bool-cases (is_some (lookup t r.responder_book))) [
      | inl h ↦ rw h v.consistent
      | inr h ↦ rw h (consume-IsConsistent r.req_router v.consistent t r.self l)
    ]

    unregister-booked :
        (u : T)
        → is_some (lookup u (unregister_as_responder r n t).0.responder_book)
          ≡ is_some (listener_of (unregister_as_responder r n t).0 u)
    unfolding unregister_as_responder
    unregister-booked u = ground (
      arith,
      v.booked u,
      v.booked t,
      subscription-unregister r.req_router v.consistent t r.self u r.self,
      lookup-remove t u r.responder_book,
    )

    unregister_as_responder-IsConsistent : IsConsistent (unregister_as_responder r n t).0.req_router
    unfolding unregister_as_responder
    unregister_as_responder-IsConsistent = elim (Bool-cases (is_some (lookup t r.responder_book))) [
      | inl h ↦ rw h (unregister-IsConsistent r.req_router v.consistent t r.self)
      | inr h ↦ rw h v.consistent
    ]

    -- registerAsResponder and unregisterAsResponder keep the book of responders and the request
    -- router in agreement: a type has a listener exactly if the book names its responder.
    pub responders-IsBooked :
        (l : Listener T I D R)
        → IsBooked (register_as_responder r n t l).0 × IsBooked (unregister_as_responder r n t).0
    responders-IsBooked l = (
      record { consistent = register-IsConsistent l; booked = register-booked l },
      record { consistent = unregister_as_responder-IsConsistent; booked = unregister-booked },
    )

    -- The first responder of a type keeps it: registerAsResponder succeeds exactly where the type has
    -- no listener and then installs this one for this type alone; unregisterAsResponder succeeds
    -- exactly where there is one and removes it alone.
    pub responders_lem :
        (l : Listener T I D R) (u : T)
        → ((register_as_responder r n t l).1 ≡ not (is_some (listener_of r t)))
          × (listener_of (register_as_responder r n t l).0 u
              ≡ (if t == u && not (is_some (listener_of r t)) then some l else listener_of r u))
          × ((unregister_as_responder r n t).1 ≡ is_some (listener_of r t))
          × (listener_of (unregister_as_responder r n t).0 u
              ≡ (if t == u then none else listener_of r u))
    unfolding register_as_responder unregister_as_responder
    responders_lem l u = ground (
      arith,
      v.booked u,
      v.booked t,
      subscription-consume r.req_router t u r.self r.self l,
      consume-fresh r.req_router t r.self l,
      subscription-unregister r.req_router v.consistent t r.self u r.self,
    )
