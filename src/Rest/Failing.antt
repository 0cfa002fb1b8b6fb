-- ===== src/Rest/Failing.antt =====
-- MDGateways/Binance/RestApi.cpp, class `BinanceRestClient`: what an error does.
use multi_market_prices.Prelude.{
  ◌≡◌, refl, ap, true, false, not, ◌&&◌, none, some, List, [], ◌∷◌, ◌++◌, String, if◌then◌else◌,
}
use multi_market_prices.Rest.{
  RestError, RestClient, RestEffect, answer, shutdown, cancel_timer, ready, arm_reconnect, no_data,
  JsonLib, PendingRequest, fail, give_up, is_operation_aborted, is_fatal_error, close_connection,
  answer_all, stop, on_read, enqueue, start_next_request, undefined, async_write,
}

module _ {C Obj Val : Type 0} (lib : JsonLib Obj Val) where
  -- Each request is answered with the empty object and `no_data`.
  abbrev pub refusals : List (PendingRequest C) → List (RestEffect C Obj)
  refusals [] = []
  refusals (req ∷ reqs) = answer req.callback lib.empty (some no_data) ∷ refusals reqs

  answer_all-no_data :
      (reqs : List (PendingRequest C)) → answer_all {Obj = Obj} lib reqs no_data ≡ refusals reqs
  unfolding answer_all
  answer_all-no_data [] = refl
  answer_all-no_data (req ∷ reqs) =
      ap (λ l. answer req.callback lib.empty (some no_data) ∷ l) (answer_all-no_data reqs)

  -- An aborted operation changes nothing. A fatal error before the first connection cancels the timer,
  -- answers every waiting request with `no_data` (never with the error itself), shuts the stream down
  -- and reports the error to the ready callback; the queue is then empty. After any other error
  -- the queue is kept, nothing is answered or reported, and the timer for the next attempt is armed.
  pub fail_lem :
      (ec : RestError) (r : RestClient C)
      → fail lib ec r ≡ (
          if is_operation_aborted ec
          then (r, [])
          else if is_fatal_error ec && not r.connected_once
          then (
            record r { connected = false; queue = [] },
            cancel_timer ∷ (refusals r.queue ++ shutdown ∷ []) ++ ready (some ec) ∷ [],
          )
          else (
            record r { connected = false },
            cancel_timer ∷ arm_reconnect r.retry_interval_sec ∷ [],
          ))
  unfolding fail give_up close_connection answer_all
  fail_lem ec r = rw (answer_all-no_data r.queue) refl

  -- `stop` leaves a connected client connected and its queue empty: a response that is read after it
  -- takes the front of the empty queue, and a request that is launched after it is written at once.
  pub stop_races :
      (r : RestClient C) (body : String) (req : PendingRequest C)
      → r.connected ≡ true
      → ((on_read lib none body (stop lib r).0).1 ≡ undefined ∷ [])
        × ((enqueue lib req (stop lib r).0).1 ≡ async_write req.target ∷ [])
  unfolding on_read enqueue close_connection start_next_request
  stop_races r body req c = (refl, rw c refl)
