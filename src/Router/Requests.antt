-- ===== src/Router/Requests.antt =====
-- CrazyRouters.hpp, `GenericReqRespRouter`. A listener is what it does with the router while it runs,
-- as a list of actions for the data of the request: respond (also later, by `deliver`), send a further
-- request, cancel one. Listeners do not register or unregister while they run, and the response
-- handlers of the requesters do not call the router back; their calls are the outputs.
pub mod Weights
pub mod Drain
pub mod Pending
pub mod Responders
use multi_market_prices.Prelude.{
  ℕ, zero, suc, Bool, true, false, Option, none, some, List, [], ◌∷◌, ◌++◌, Eq, if◌then◌else◌,
  is_some, Map, lookup, assign, remove, contains, insert, erase, nat_eq,
}
use multi_market_prices.Router.PubSub.{
  PubSubDataRouter, Call, data_call, keyed_call, produce, consume, unregister,
}

-- What a listener does with the router while it handles a request.
pub data Action (T I D R : Type 0) : Type 0 where
  responds : Bool → R → Action T I D R
  requests : I → T → D → Action T I D R
  cancels : I → Action T I D R

abbrev pub Listener : Type 0 → Type 0 → Type 0 → Type 0 → Type 0
Listener T I D R = D → List (Action T I D R)

-- The values that a `reqForwarder` captures.
pub record Forwarder (T I D : Type 0) : Type 0 where
  pub req_id : I
  pub req_type : T
  pub req_data : D

-- One call of a requester's response handler.
pub record Response (I R : Type 0) : Type 0 where
  pub req_id : I
  pub is_last : Bool
  pub response : R

-- `N` names the responders. The router registers each listener under its own address.
pub record GenericReqRespRouter (N T I D R : Type 0) : Type 0 where
  pub self : ℕ
  pub req_pending : Bool
  pub req_router : PubSubDataRouter T ℕ (Listener T I D R) (Unit {0})
  pub pending_req_processors : List (Forwarder T I D)
  pub pending_req_ids : List I
  pub responder_book : Map T N

abbrev pub pop : {A : Type 0} → List A → List A
pop [] = []
pop (f ∷ fs) = fs

module _ {N T I D R : Type 0} ⦃eT : Eq T⦄ where
  unfoldable pub register_as_responder :
      GenericReqRespRouter N T I D R
      → N
      → T
      → Listener T I D R
      → GenericReqRespRouter N T I D R × Bool
  register_as_responder r responder type listener =
      if is_some (lookup type r.responder_book) then (r, false) else (
        record r {
          responder_book = assign type responder r.responder_book;
          req_router = (consume r.req_router type r.self listener).0;
        },
        true,
      )

  unfoldable pub unregister_as_responder :
      GenericReqRespRouter N T I D R → N → T → GenericReqRespRouter N T I D R × Bool
  unregister_as_responder r responder type =
      if is_some (lookup type r.responder_book)
      then (
        record r {
          responder_book = remove type r.responder_book;
          req_router = (unregister r.req_router type r.self).0;
        },
        true,
      )
      else (r, false)

module _ {N T I D R : Type 0} ⦃eI : Eq I⦄ where
  unfoldable pub cancel_request :
      GenericReqRespRouter N T I D R → I → GenericReqRespRouter N T I D R × Bool
  cancel_request r id =
      if contains id r.pending_req_ids
      then (record r { pending_req_ids = erase id r.pending_req_ids }, true)
      else (r, false)

  -- The response handler that `request` hands to the listener, for the request `id`.
  unfoldable pub deliver :
      GenericReqRespRouter N T I D R
      → I
      → Bool
      → R
      → GenericReqRespRouter N T I D R × List (Response I R)
  deliver r id is_last response =
      if contains id r.pending_req_ids
      then (
        (if is_last then record r { pending_req_ids = erase id r.pending_req_ids } else r),
        record { req_id = id; is_last = is_last; response = response } ∷ [],
      )
      else (r, [])

  -- `request` where a request is being forwarded: the new one waits its turn.
  unfoldable pub enqueue :
      GenericReqRespRouter N T I D R → Forwarder T I D → GenericReqRespRouter N T I D R × Bool
  enqueue r f = if contains f.req_id r.pending_req_ids then (r, false) else (
    record r {
      pending_req_ids = insert f.req_id r.pending_req_ids;
      pending_req_processors = r.pending_req_processors ++ f ∷ [];
    },
    true,
  )

  -- What the listener does, action by action.
  unfoldable pub act :
      GenericReqRespRouter N T I D R
      → I
      → Action T I D R
      → GenericReqRespRouter N T I D R × List (Response I R)
  act r id (responds is_last response) = deliver r id is_last response
  act r id (requests new type d) =
      ((enqueue r (record { req_id = new; req_type = type; req_data = d })).0, [])
  act r id (cancels other) = ((cancel_request r other).0, [])

  unfoldable pub act_all :
      GenericReqRespRouter N T I D R
      → I
      → List (Action T I D R)
      → GenericReqRespRouter N T I D R × List (Response I R)
  act_all r id [] = (r, [])
  act_all r id (a ∷ rest) =
      let (r', out) = act r id a in let (r'', outs) = act_all r' id rest in (r'', out ++ outs)

  -- The listeners that `produce` calls for the request `id`.
  unfoldable pub listen :
      GenericReqRespRouter N T I D R
      → I
      → List (Call T ℕ (Listener T I D R) (Unit {0}) D)
      → GenericReqRespRouter N T I D R × List (Response I R)
  listen r id [] = (r, [])
  listen r id (data_call _ listener d ∷ calls) =
      let (r', out) = act_all r id (listener d) in
      let (r'', outs) = listen r' id calls in (r'', out ++ outs)
  listen r id (keyed_call _ _ _ _ ∷ calls) = listen r id calls

module _ {N T I D R : Type 0} ⦃eT : Eq T⦄ ⦃eI : Eq I⦄ where
  -- A call of `reqForwarder`.
  unfoldable pub forward :
      GenericReqRespRouter N T I D R
      → Forwarder T I D
      → GenericReqRespRouter N T I D R × List (Response I R)
  forward r f =
      let calls = (produce r.req_router f.req_type f.req_data).1 in
      let (r', out) = listen (record r { req_pending = true }) f.req_id calls in
      (record r' { req_pending = false }, out)

  -- `while (!m_pendingReqProcessors.empty())`: the front is called while it still stands in the
  -- queue. `none` means that the fuel ran out.
  unfoldable pub drain :
      ℕ
      → GenericReqRespRouter N T I D R
      → Option (GenericReqRespRouter N T I D R × List (Response I R))
  drain zero r = none
  drain (suc fuel) r = elim r.pending_req_processors [
    | [] ↦ some (r, [])
    | f ∷ _ ↦
        let (r', out) = forward r f in
        elim (drain fuel (record r' { pending_req_processors = pop r'.pending_req_processors })) [
          | none ↦ none
          | some (r'', outs) ↦ some (r'', out ++ outs)
        ]
  ]

  -- `request`, called while no request is being forwarded (`enqueue` is the other case).
  unfoldable pub request :
      ℕ
      → GenericReqRespRouter N T I D R
      → Forwarder T I D
      → Option (GenericReqRespRouter N T I D R × List (Response I R) × Bool)
  request fuel r f =
      if contains f.req_id r.pending_req_ids
      then some (r, [], false)
      else let (r', out) =
          forward (record r { pending_req_ids = insert f.req_id r.pending_req_ids }) f in
        elim (drain fuel r') [ none ↦ none | some (r'', outs) ↦ some (r'', out ++ outs, true) ]
