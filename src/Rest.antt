-- ===== src/Rest.antt =====
-- MDGateways/Binance/RestApi.h and RestApi.cpp, class `BinanceRestClient`: the queue of requests and
-- the handlers, which run on one strand. A handler returns the new state and what it starts, in
-- order. A callback is a value of a type `C`, and `none` is the empty callback of the keep-alive
-- ping; the JSON library is a parameter. What the code does on an empty queue where it takes the
-- front is `undefined`.
pub mod Calls
pub mod Exchange
pub mod Order
pub mod Phase
pub mod Draining
pub mod Failing
mod Tests
use Prim.Native.String
use multi_market_prices.Prelude.{
  ℕ, Bool, true, false, not, ◌&&◌, Option, none, some, List, [], ◌∷◌, ◌++◌, String, string_eq,
  string_dec, ◌==◌, is_empty, if◌then◌else◌,
}

-- The codes of Beast's HTTP parser that `isFatalError` names.
pub data HttpError : Type 0 where
  bad_alloc bad_method bad_version bad_status bad_reason bad_field bad_value : HttpError
  bad_content_length bad_transfer_encoding bad_chunk bad_chunk_extension bad_line_ending
        bad_obs_fold :
      HttpError

-- An error code: `operation_aborted`, `no_data`, one of the SSL category, one of those, or another.
pub data RestError : Type 0 where
  operation_aborted no_data : RestError
  ssl : ℕ → RestError
  http : HttpError → RestError
  other : ℕ → RestError

abbrev pub is_operation_aborted : RestError → Bool
is_operation_aborted operation_aborted = true
is_operation_aborted _ = false

abbrev pub is_fatal_error : RestError → Bool
is_fatal_error (ssl n) = true
is_fatal_error (http e) = true
is_fatal_error _ = false

-- What the code uses of Boost.JSON: the empty object, `parse` with `as_object` (`none` where it
-- throws), `contains` with `at`, an object as a value, and the object with one member.
pub record JsonLib (Obj Val : Type 0) : Type 0 where
  pub empty : Obj
  pub parse_object : String → Option Obj
  pub find : String → Obj → Option Val
  pub of_object : Obj → Val
  pub single : String → Val → Obj

-- The method is always `get`, and `start_next_request` reads the target only.
pub record PendingRequest (C : Type 0) : Type 0 where
  pub target : String
  pub callback : Option C

pub data RestEffect (C Obj : Type 0) : Type 0 where
  async_resolve async_connect async_handshake async_read : RestEffect C Obj
  async_write : String → RestEffect C Obj
  answer : Option C → Obj → Option RestError → RestEffect C Obj
  ready : Option RestError → RestEffect C Obj
  -- `net::post` of the rest of `launch_request`.
  launch : PendingRequest C → RestEffect C Obj
  cancel_timer arm_keep_alive shutdown undefined : RestEffect C Obj
  arm_reconnect : ℕ → RestEffect C Obj

pub record RestClient (C : Type 0) : Type 0 where
  pub api_version : String
  pub retry_interval_sec : ℕ
  pub connected : Bool
  pub connected_once : Bool
  pub queue : List (PendingRequest C)

-- The constructor.
unfoldable pub new_client : {C : Type 0} → String → ℕ → RestClient C
new_client api_version retry_interval_sec = record {
  api_version = api_version;
  retry_interval_sec = retry_interval_sec;
  connected = false;
  connected_once = false;
  queue = [];
}

-- The target of a request, which `launch_request` makes before it posts the rest.
unfoldable pub target : {C : Type 0} → RestClient C → String → String → String
unfolding string_dec
target r path query =
    let base = String.◌++◌ r.api_version path in
    if query == "" then base else String.◌++◌ base (String.◌++◌ "?" query)

-- The object that the callback gets: the list of symbols, or the whole body under `data`; empty when
-- the body is empty or is not a JSON object.
unfoldable pub parse_body : {Obj Val : Type 0} → JsonLib Obj Val → String → Obj
unfolding string_dec
parse_body lib body = if body == "" then lib.empty else (elim (lib.parse_object body) [
  | none ↦ lib.empty
  | some obj ↦ elim (lib.find "symbols" obj) [
    | some list ↦ lib.single "symbols" list
    | none ↦ lib.single "data" (lib.of_object obj)
  ]
])

abbrev pub Handler : Type 0 → Type 0 → Type 0
Handler C Obj = RestClient C → RestClient C × List (RestEffect C Obj)

module _ {C Obj Val : Type 0} (lib : JsonLib Obj Val) where
  -- `run`
  abbrev pub start : Handler C Obj
  start r = (r, async_resolve ∷ [])

  unfoldable pub start_next_request : Handler C Obj
  start_next_request r = elim r.queue [
    | [] ↦ (r, undefined ∷ [])
    | current ∷ rest ↦ (r, async_write current.target ∷ [])
  ]

  -- The part of `launch_request` that runs on the strand.
  unfoldable pub enqueue : PendingRequest C → Handler C Obj
  unfolding start_next_request
  enqueue req r =
      let r' = record r { queue = r.queue ++ req ∷ [] } in
      if is_empty r.queue && r.connected then start_next_request r' else (r', [])

  -- `while (!m_queue.empty()) { …; cb(json::object{}, ec); m_queue.pop(); }`
  unfoldable pub answer_all : List (PendingRequest C) → RestError → List (RestEffect C Obj)
  answer_all [] ec = []
  answer_all (req ∷ reqs) ec = answer req.callback lib.empty (some ec) ∷ answer_all reqs ec

  unfoldable pub close_connection : Handler C Obj
  unfolding answer_all
  close_connection r = (record r { queue = [] }, answer_all r.queue no_data ++ shutdown ∷ [])

  -- The fatal branch of `fail`.
  unfoldable pub give_up : RestError → Handler C Obj
  unfolding close_connection answer_all
  give_up ec r =
      let closed = close_connection (record r { connected = false }) in
      (
        record closed.0 { queue = [] },
        cancel_timer ∷ closed.1 ++ (answer_all closed.0.queue ec ++ ready (some ec) ∷ []),
      )

  unfoldable pub fail : RestError → Handler C Obj
  unfolding give_up
  fail ec r =
      if is_operation_aborted ec
      then (r, [])
      else if is_fatal_error ec && not r.connected_once
      then give_up ec r
      else (record r { connected = false }, cancel_timer ∷ arm_reconnect r.retry_interval_sec ∷ [])

  -- The callback of the reconnect timer.
  unfoldable pub on_reconnect_timer : Bool → Handler C Obj
  on_reconnect_timer cancelled r = if cancelled then (r, []) else start r

  unfoldable pub on_resolve : Option RestError → Handler C Obj
  unfolding fail
  on_resolve (some ec) r = fail ec r
  on_resolve none r = (r, async_connect ∷ [])

  -- `sni` is the outcome of `SSL_set_tlsext_host_name`, with the error that it leaves.
  unfoldable pub on_connect : Option RestError → Option RestError → Handler C Obj
  unfolding fail
  on_connect (some ec) sni r = fail ec r
  on_connect none (some ec) r = fail ec r
  on_connect none none r = (r, async_handshake ∷ [])

  unfoldable pub on_handshake : Option RestError → Handler C Obj
  unfolding fail start_next_request
  on_handshake (some ec) r = fail ec r
  on_handshake none r =
      let up = record r { connected = true; connected_once = true } in
      let next = if is_empty r.queue then (up, []) else start_next_request up in
      (next.0, cancel_timer ∷ arm_keep_alive ∷ next.1 ++ ready none ∷ [])

  unfoldable pub on_write : Option RestError → Handler C Obj
  unfolding fail
  on_write (some ec) r = fail ec r
  on_write none r = (r, async_read ∷ [])

  unfoldable pub on_read : Option RestError → String → Handler C Obj
  unfolding fail start_next_request parse_body
  on_read (some ec) body r = fail ec r
  on_read none body r = elim r.queue [
    | [] ↦ (r, undefined ∷ [])
    | current ∷ rest ↦
        let r' = record r { queue = rest } in
        let next = if is_empty rest then (r', []) else start_next_request r' in
        (next.0, answer current.callback (parse_body lib body) none ∷ next.1)
  ]

  -- `stop` posts this.
  abbrev pub stop : Handler C Obj
  unfolding close_connection
  stop r = close_connection r
