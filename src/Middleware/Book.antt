-- ===== src/Middleware/Book.antt =====
-- MiddleWare/Interface.cpp: the book of pending requests, seen as the destination of each pending
-- number.
use multi_market_prices.Prelude.{
  ℕ, ◌≡◌, refl, Bool, false, not, ◌&&◌, Option, none, some, List, [], ◌∷◌, String, string_eq,
  string_dec, nat_eq, nat_dec, ◌==◌, if◌then◌else◌, lookup, is_some, stoull, lookup-assign,
  lookup-remove, Bool-cases, Option-cases, eq_of_==, inl, inr, arith,
}
use multi_market_prices.Constants.Messages.{HeaderKey}
use multi_market_prices.Middleware.{Message, ok, non_existent_req_id}
use multi_market_prices.Middleware.Requests.{
  Application, PendingRequestBook, header, on_message, respond, handle_lifecycle, handle_response,
  handle_request, on_request,
}

-- A message arrives at the application, or the application responds.
pub data Turn : Type 0 where
  arrives : Message → Turn
  responds : ℕ → String → Bool → Turn

unfoldable pub step : Application → Turn → PendingRequestBook → PendingRequestBook
unfolding on_message respond
step app (arrives m) book = (on_message app m book).0
step app (responds req_id payload is_last) book = (respond req_id payload is_last book).1

-- The number and the destination of a message that asks: a request with a number of 64 bits, a
-- destination and no type of its own.
abbrev pub asked_by : Option ℕ → Option String → Option String → Option (ℕ × String)
asked_by (some req_id) (some dest) none = some (req_id, dest)
asked_by _ _ _ = none

abbrev pub number_of : Option String → Option ℕ
number_of none = none
number_of (some s) = stoull s

abbrev pub asks : Message → Option (ℕ × String)
asks m =
    if m.msg_type == "request"
    then asked_by (number_of (header HeaderKey.req_id m.headers))
        (header HeaderKey.dest_topic m.headers) (header HeaderKey.req_type m.headers)
    else none

-- A request becomes pending unless its number is; a last response ends it.
abbrev pub view_after : Turn → ℕ → Option String → Option String
view_after (arrives m) i pending = elim (asks m) [
  | none ↦ pending
  | some (req_id, dest) ↦ if req_id == i && not (is_some pending) then some dest else pending
]
view_after (responds req_id payload is_last) i pending =
    if is_last && req_id == i then none else pending

on_request_lem :
    (m : Message) (book : PendingRequestBook) (i : ℕ)
    → lookup i (on_request m book).0
      ≡ elim (asked_by
          (number_of (header HeaderKey.req_id m.headers))
          (header HeaderKey.dest_topic m.headers)
          (header HeaderKey.req_type m.headers)) [
            | none ↦ lookup i book
            | some (req_id, dest) ↦
                if req_id == i && not (is_some (lookup i book)) then some dest else lookup i book
          ]
unfolding on_request
on_request_lem m book i = elim (Option-cases (header HeaderKey.req_id m.headers)) [
  | inl e ↦ rw (e, on_request) refl
  | inr (s, e) ↦ elim (Option-cases (stoull s)) [
    | inl f ↦ rw (e, f, on_request) refl
    | inr (n, f) ↦ elim (Option-cases (header HeaderKey.dest_topic m.headers)) [
      | inl d ↦ elim (Option-cases (lookup n book)) [
        | inl g ↦ rw (e, f, g, d, on_request) refl
        | inr (p, g) ↦ rw (e, f, g, d, on_request) refl
      ]
      | inr (dest, d) ↦ elim (Option-cases (header HeaderKey.req_type m.headers)) [
        | inl t ↦ elim (Option-cases (lookup n book)) [
          | inl g ↦ rw (e, f, g, d, t, on_request) (ground (arith, lookup-assign n i dest book))
          | inr (p, g) ↦ rw (e, f, g, d, t, on_request) (ground (arith, g))
        ]
        | inr (u, t) ↦ elim (Option-cases (lookup n book)) [
          | inl g ↦ rw (e, f, g, d, t, on_request) refl
          | inr (p, g) ↦ rw (e, f, g, d, t, on_request) refl
        ]
      ]
    ]
  ]
]

request_lem :
    (app : Application) (m : Message) (book : PendingRequestBook)
    → m.msg_type ≡ "request"
    → (on_message app m book).0 ≡ (on_request m book).0
unfolding on_message handle_lifecycle handle_response handle_request string_dec
request_lem app m book e = rw (e, handle_lifecycle, handle_response, handle_request) refl

other_lem :
    (app : Application) (m : Message) (book : PendingRequestBook)
    → (m.msg_type == "request") ≡ false
    → (on_message app m book).0 ≡ book
unfolding on_message handle_request
other_lem app m book e = rw (e, handle_request) (ground arith)

arrives_lem :
    (app : Application) (m : Message) (book : PendingRequestBook) (i : ℕ)
    → lookup i (on_message app m book).0 ≡ view_after (arrives m) i (lookup i book)
arrives_lem app m book i = elim (Bool-cases (m.msg_type == "request")) [
  | inl r ↦
      rw (request_lem app m book (eq_of_== m.msg_type "request" r), r, view_after, asks)
        (on_request_lem m book i)
  | inr r ↦ rw (other_lem app m book r, r, view_after, asks) refl
]

responds_lem :
    (app : Application) (req_id : ℕ) (payload : String) (is_last : Bool) (book : PendingRequestBook)
    (i : ℕ)
    → lookup i (respond req_id payload is_last book).1
      ≡ view_after (responds req_id payload is_last) i (lookup i book)
unfolding respond nat_dec
responds_lem app req_id payload is_last book i = elim (Option-cases (lookup req_id book)) [
  | inl e ↦ rw (e, respond) (ground (arith, e))
  | inr (d, e) ↦ rw (e, respond) (ground (arith, lookup-remove req_id i book))
]

-- The book after some turns, of which the last stands first.
unfoldable pub run : Application → List Turn → PendingRequestBook
unfolding step
run app [] = []
run app (t ∷ ts) = step app t (run app ts)

abbrev pub pending_after : List Turn → ℕ → Option String
pending_after [] i = none
pending_after (t ∷ ts) i = view_after t i (pending_after ts i)

lookup-step :
    (app : Application) (t : Turn) (book : PendingRequestBook) (i : ℕ)
    → lookup i (step app t book) ≡ view_after t i (lookup i book)
unfolding step
lookup-step app (arrives m) book i = arrives_lem app m book i
lookup-step app (responds req_id payload is_last) book i =
    responds_lem app req_id payload is_last book i

lookup-run :
    (app : Application) (ts : List Turn) (i : ℕ) → lookup i (run app ts) ≡ pending_after ts i
unfolding run lookup
lookup-run app [] i = refl
lookup-run app (t ∷ ts) i = rw (lookup-step app t (run app ts) i, lookup-run app ts i) refl

accepts_lem :
    (req_id : ℕ) (payload : String) (is_last : Bool) (book : PendingRequestBook)
    → (respond req_id payload is_last book).0
      ≡ (if is_some (lookup req_id book) then ok else non_existent_req_id)
unfolding respond
accepts_lem req_id payload is_last book = elim (Option-cases (lookup req_id book)) [
  | inl e ↦ rw (e, respond) refl
  | inr (d, e) ↦ rw (e, respond) refl
]

-- After any sequence of messages that arrive and responses that the application gives, from the
-- start: the book holds for each number the destination that the messages and responses alone
-- determine (the first request with the number, a destination and no type of its own makes it
-- pending, a later one does not change it, a last response ends it), and the next response to the
-- number is accepted exactly if it is pending.
pub run-lem :
    (app : Application) (ts : List Turn) (i : ℕ) (payload : String) (is_last : Bool)
    → (lookup i (run app ts) ≡ pending_after ts i)
      × ((respond i payload is_last (run app ts)).0
          ≡ (if is_some (pending_after ts i) then ok else non_existent_req_id))
run-lem app ts i payload is_last =
    (lookup-run app ts i, rw (accepts_lem i payload is_last (run app ts), lookup-run app ts i) refl)
