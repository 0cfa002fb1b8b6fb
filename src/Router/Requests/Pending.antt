-- ===== src/Router/Requests/Pending.antt =====
-- CrazyRouters.hpp, `GenericReqRespRouter`: which responses reach the requester, and the registrations
-- of the responders.
use multi_market_prices.Prelude.{
  ◌≡◌, refl, Bool, true, false, not, ◌&&◌, ◌||◌, List, [], ◌∷◌, ◌++◌, Eq, ◌==◌, if◌then◌else◌,
  contains, arith, nat_eq, contains-erase,
}
use multi_market_prices.Router.Requests.{Response, GenericReqRespRouter, cancel_request, deliver}

module _ {N T I D R : Type 0} ⦃eI : Eq I⦄ where
  -- A responder's calls of the handler that it was given for the request `id`.
  unfoldable pub deliver_all :
      GenericReqRespRouter N T I D R
      → I
      → List (Bool × R)
      → GenericReqRespRouter N T I D R × List (Response I R)
  deliver_all r id [] = (r, [])
  deliver_all r id ((l, x) ∷ xs) =
      let (r', out) = deliver r id l x in
      let (r'', outs) = deliver_all r' id xs in (r'', out ++ outs)

  deliver_all_idle :
      (r : GenericReqRespRouter N T I D R) (id : I) (xs : List (Bool × R))
      → contains id r.pending_req_ids ≡ false
      → deliver_all r id xs ≡ (r, [])
  unfolding deliver_all deliver
  deliver_all_idle r id [] h = refl
  deliver_all_idle r id ((l, x) ∷ xs) h = rw h (rw (deliver_all_idle r id xs h) refl)

-- What the requester of `id` is to see: the responses up to the first that is the last.
abbrev pub through_last : {I R : Type 0} → I → List (Bool × R) → List (Response I R)
through_last id [] = []
through_last id ((l, x) ∷ xs) =
    record { req_id = id; is_last = l; response = x } ∷ (if l then [] else through_last id xs)

abbrev pub any_last : {R : Type 0} → List (Bool × R) → Bool
any_last [] = false
any_last ((l, x) ∷ xs) = l || any_last xs

module _ {N T I D R : Type 0} ⦃eI : Eq I⦄ where
  deliver_pending :
      (r : GenericReqRespRouter N T I D R) (id j : I) (l : Bool) (x : R)
      → contains id r.pending_req_ids ≡ true
      → ((deliver r id l x).1 ≡ record { req_id = id; is_last = l; response = x } ∷ [])
        × (contains j (deliver r id l x).0.pending_req_ids
            ≡ (not (l && id == j) && contains j r.pending_req_ids))
  unfolding deliver
  deliver_pending r id j l x h = ground (arith, contains-erase id j r.pending_req_ids)

  -- For a pending request the requester sees the responses up to the first one marked last and none
  -- after it, whatever the responder sends; the request stays pending exactly if none was marked
  -- last, and no other request is touched.
  pub deliver_all-through_last :
      (r : GenericReqRespRouter N T I D R) (id : I) (xs : List (Bool × R))
      → contains id r.pending_req_ids ≡ true
      → ((deliver_all r id xs).1 ≡ through_last id xs)
        × ((j : I)
            → contains j (deliver_all r id xs).0.pending_req_ids
              ≡ (not (any_last xs && id == j) && contains j r.pending_req_ids))
  unfolding deliver_all
  deliver_all-through_last r id [] h = (refl, λ j. refl)
  deliver_all-through_last r id ((true, x) ∷ xs) h =
      let r' = (deliver r id true x).0 in
      let gone = deliver_all_idle r' id xs (ground (arith, deliver_pending r id id true x h)) in
      (
        ground (arith, gone, deliver_pending r id id true x h),
        λ j. ground (arith, gone, deliver_pending r id j true x h),
      )
  deliver_all-through_last r id ((false, x) ∷ xs) h =
      let r' = (deliver r id false x).0 in
      let (outs, kept) =
        deliver_all-through_last r' id xs (ground (arith, deliver_pending r id id false x h)) in
      (
        ground (arith, outs, deliver_pending r id id false x h),
        λ j. ground (arith, kept j, deliver_pending r id j false x h),
      )

  -- After cancelRequest no response of that request reaches the requester, and nothing changes the
  -- set of pending requests but the cancellation.
  pub deliver_all-cancel_request :
      (r : GenericReqRespRouter N T I D R) (id : I) (xs : List (Bool × R))
      → deliver_all (cancel_request r id).0 id xs ≡ ((cancel_request r id).0, [])
  unfolding cancel_request
  deliver_all-cancel_request r id xs =
      deliver_all_idle (cancel_request r id).0 id xs
        (ground (arith, contains-erase id id r.pending_req_ids))
