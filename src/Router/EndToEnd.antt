-- ===== src/Router/EndToEnd.antt =====
-- CrazyRouters.hpp, `EndToEndReqRespRouter`: requests that name the responder. Listeners, forwarders
-- and responses are as in Router.Requests, with the responder's name where a type stands there.
pub mod Simulation
use multi_market_prices.Prelude.{
  ℕ, zero, suc, Bool, true, false, Option, none, some, List, [], ◌∷◌, ◌++◌, Eq, if◌then◌else◌,
  contains, insert, erase, nat_eq,
}
use multi_market_prices.Router.PubSub.{
  PubSubDataRouter, Call, data_call, keyed_call, produce, consume, unregister,
}
use multi_market_prices.Router.Requests.{
  Action, responds, requests, cancels, Listener, Forwarder, Response, pop,
}

pub record EndToEndReqRespRouter (N I D R : Type 0) : Type 0 where
  pub self : ℕ
  pub req_pending : Bool
  pub pending_req_processors : List (Forwarder N I D)
  pub req_router : PubSubDataRouter N ℕ (Listener N I D R) (Unit {0})
  pub pending_req_ids : List I

module _ {N I D R : Type 0} ⦃eN : Eq N⦄ where
  unfoldable pub register_as_responder :
      EndToEndReqRespRouter N I D R → N → Listener N I D R → EndToEndReqRespRouter N I D R × Bool
  register_as_responder r responder listener =
      let (router, found) = consume r.req_router responder r.self listener in
      (record r { req_router = router }, found)

  unfoldable pub unregister_as_responder :
      EndToEndReqRespRouter N I D R → N → EndToEndReqRespRouter N I D R × Bool
  unregister_as_responder r responder =
      let (router, found) = unregister r.req_router responder r.self in
      (record r { req_router = router }, found)

module _ {N I D R : Type 0} ⦃eI : Eq I⦄ where
  unfoldable pub cancel_request :
      EndToEndReqRespRouter N I D R → I → EndToEndReqRespRouter N I D R × Bool
  cancel_request r id =
      if contains id r.pending_req_ids
      then (record r { pending_req_ids = erase id r.pending_req_ids }, true)
      else (r, false)

  -- The response handler that the listener gets.
  unfoldable pub deliver :
      EndToEndReqRespRouter N I D R
      → I
      → Bool
      → R
      → EndToEndReqRespRouter N I D R × List (Response I R)
  deliver r id is_last response =
      if contains id r.pending_req_ids
      then (
        (if is_last then record r { pending_req_ids = erase id r.pending_req_ids } else r),
        record { req_id = id; is_last = is_last; response = response } ∷ [],
      )
      else (r, [])

  -- `request` while another one is being forwarded.
  unfoldable pub enqueue :
      EndToEndReqRespRouter N I D R → Forwarder N I D → EndToEndReqRespRouter N I D R × Bool
  enqueue r f = if contains f.req_id r.pending_req_ids then (r, false) else (
    record r {
      pending_req_ids = insert f.req_id r.pending_req_ids;
      pending_req_processors = r.pending_req_processors ++ f ∷ [];
    },
    true,
  )

  unfoldable pub act :
      EndToEndReqRespRouter N I D R
      → I
      → Action N I D R
      → EndToEndReqRespRouter N I D R × List (Response I R)
  unfolding deliver enqueue cancel_request
  act r id (responds is_last response) = deliver r id is_last response
  act r id (requests new responder d) =
      ((enqueue r (record { req_id = new; req_type = responder; req_data = d })).0, [])
  act r id (cancels other) = ((cancel_request r other).0, [])

  unfoldable pub act_all :
      EndToEndReqRespRouter N I D R
      → I
      → List (Action N I D R)
      → EndToEndReqRespRouter N I D R × List (Response I R)
  unfolding act
  act_all r id [] = (r, [])
  act_all r id (a ∷ more) =
      let (r', out) = act r id a in let (r'', outs) = act_all r' id more in (r'', out ++ outs)

  unfoldable pub listen :
      EndToEndReqRespRouter N I D R
      → I
      → List (Call N ℕ (Listener N I D R) (Unit {0}) D)
      → EndToEndReqRespRouter N I D R × List (Response I R)
  unfolding act_all
  listen r id [] = (r, [])
  listen r id (data_call _ listener d ∷ calls) =
      let (r', out) = act_all r id (listener d) in
      let (r'', outs) = listen r' id calls in (r'', out ++ outs)
  listen r id (keyed_call _ _ _ _ ∷ calls) = listen r id calls

module _ {N I D R : Type 0} ⦃eN : Eq N⦄ ⦃eI : Eq I⦄ where
  -- A call of `reqForwarder`.
  unfoldable pub forward :
      EndToEndReqRespRouter N I D R
      → Forwarder N I D
      → EndToEndReqRespRouter N I D R × List (Response I R)
  unfolding listen
  forward r f =
      let calls = (produce r.req_router f.req_type f.req_data).1 in
      let (r', out) = listen (record r { req_pending = true }) f.req_id calls in
      (record r' { req_pending = false }, out)

  -- The loop over the forwarders that wait; `none` means that the fuel ran out.
  unfoldable pub drain :
      ℕ
      → EndToEndReqRespRouter N I D R
      → Option (EndToEndReqRespRouter N I D R × List (Response I R))
  unfolding forward
  drain zero r = none
  drain (suc fuel) r = elim r.pending_req_processors [
    | [] ↦ some (r, [])
    | f ∷ _ ↦
        let (r', out) = forward r f in
        elim (drain fuel (record r' { pending_req_processors = pop r'.pending_req_processors })) [
          | none ↦ none
          | some (r'', outs) ↦ some (r'', out ++ outs)
        ]
  ]

  -- `request` while no request is being forwarded.
  unfoldable pub request :
      ℕ
      → EndToEndReqRespRouter N I D R
      → Forwarder N I D
      → Option (EndToEndReqRespRouter N I D R × List (Response I R) × Bool)
  unfolding forward drain
  request fuel r f =
      if contains f.req_id r.pending_req_ids
      then some (r, [], false)
      else let (r', out) =
          forward (record r { pending_req_ids = insert f.req_id r.pending_req_ids }) f in
        elim (drain fuel r') [ none ↦ none | some (r'', outs) ↦ some (r'', out ++ outs, true) ]
