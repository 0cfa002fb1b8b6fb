-- ===== src/Middleware/Dispatch.antt =====
-- MiddleWare/Interface.cpp, `refinedMsgCallback`: which messages reach the application, and which
-- the middleware keeps to itself.
use multi_market_prices.Prelude.{
  ℕ, ◌≡◌, refl, sym, ◌∙◌, Bool, true, false, ◌||◌, Option, none, some, List, [], ◌∷◌, String,
  string_eq, string_dec, nat_eq, ◌==◌, if◌then◌else◌, arith, is_some, lookup, stoull, Bool-cases,
  eq_of_==, Option-cases, inl, inr,
}
use multi_market_prices.Constants.Messages.{MessageType, message_type_text, HeaderKey}
use multi_market_prices.Middleware.{Message, MiddlewareEffect, handle, deliver, produce}
use multi_market_prices.Middleware.Book.{asked_by, asks, number_of}
use multi_market_prices.Middleware.Requests.{
  Application, PendingRequestBook, header, is_type, on_message, handle_lifecycle, handle_response,
  handle_request, on_response, on_request, call_back, handle_special_request,
}

-- The messages among some effects that the application's own callback gets, and the requests that its
-- handler gets.
abbrev pub delivered : List MiddlewareEffect → List Message
delivered [] = []
delivered (deliver m ∷ es) = m ∷ delivered es
delivered (_ ∷ es) = delivered es

abbrev pub handled : List MiddlewareEffect → List ℕ
handled [] = []
handled (handle req_id payload ∷ es) = req_id ∷ handled es
handled (_ ∷ es) = handled es

-- The types of messages that the middleware keeps to itself.
abbrev pub is_internal : String → Bool
is_internal msg_type =
    is_type MessageType.component_enquiry msg_type
    || is_type MessageType.request_stop msg_type
    || is_type MessageType.response msg_type
    || is_type MessageType.last_response msg_type
    || is_type MessageType.request msg_type

call_back_undelivered :
    (app : Application) (n : ℕ) (s : String) (m : Message) (is_last : Bool)
    → (delivered (call_back app n s m.headers m.payload is_last) ≡ [])
      × (handled (call_back app n s m.headers m.payload is_last) ≡ [])
unfolding call_back
call_back_undelivered app n s m is_last = ground arith

-- The effects of what is internal never reach the application's own callback.
abbrev IsSilent : List MiddlewareEffect → Type 0
IsSilent es = (delivered es ≡ []) × (handled es ≡ [])

on_response-IsSilent : (app : Application) (m : Message) → IsSilent (on_response app m)
unfolding on_response
on_response-IsSilent app m = elim (Option-cases (header HeaderKey.resp_id m.headers)) [
  | inl e ↦ rw (e, on_response) (refl, refl)
  | inr (s, e) ↦ elim (Option-cases (stoull s)) [
    | inl f ↦ elim (Option-cases (header HeaderKey.is_last m.headers)) [
      | inl g ↦ rw (e, f, g, on_response) (refl, refl)
      | inr (l, g) ↦ rw (e, f, g, on_response) (ground arith)
    ]
    | inr (n, f) ↦ elim (Option-cases (header HeaderKey.is_last m.headers)) [
      | inl g ↦ rw (e, f, g, on_response) (call_back_undelivered app n s m false)
      | inr (l, g) ↦
          rw (e, f, g, on_response) (ground (arith, call_back_undelivered app n s m (l == "1")))
    ]
  ]
]

produce-IsSilent : (t k p l : String) (h : List (String × String)) → IsSilent (produce t k p l h).1
unfolding produce
produce-IsSilent t k p l h = ground arith

special-IsSilent : (n : ℕ) (q w : String) → IsSilent (handle_special_request n q w)
unfolding handle_special_request produce
special-IsSilent n q w = ground arith

abbrev asked : Option (ℕ × String) → PendingRequestBook → List ℕ
asked none book = []
asked (some (req_id, dest)) book = if is_some (lookup req_id book) then [] else req_id ∷ []

asked_pending :
    (n : ℕ) (d t : Option String) (book : PendingRequestBook)
    → is_some (lookup n book) ≡ true
    → asked (asked_by (some n) d t) book ≡ []
asked_pending n none t book g = refl
asked_pending n (some d) none book g = rw g refl
asked_pending n (some d) (some t) book g = refl

on_request_lem :
    (m : Message) (book : PendingRequestBook)
    → (delivered (on_request m book).1 ≡ [])
      × (handled (on_request m book).1
          ≡ asked
              (asked_by
                (number_of (header HeaderKey.req_id m.headers))
                (header HeaderKey.dest_topic m.headers)
                (header HeaderKey.req_type m.headers))
              book)
unfolding on_request handle_special_request
on_request_lem m book = elim (Option-cases (header HeaderKey.req_id m.headers)) [
  | inl e ↦ rw (e, on_request) (refl, refl)
  | inr (s, e) ↦ elim (Option-cases (stoull s)) [
    | inl f ↦ rw (e, f, on_request) (refl, refl)
    | inr (n, f) ↦ elim (Bool-cases (is_some (lookup n book))) [
      | inl g ↦
          rw (e, f, g, on_request)
            (
              refl,
              rw
                  (asked_pending n (header HeaderKey.dest_topic m.headers)
                    (header HeaderKey.req_type m.headers) book g)
                  refl,
            )
      | inr g ↦ elim (Option-cases (header HeaderKey.dest_topic m.headers)) [
        | inl d ↦ rw (e, f, g, d, on_request) (refl, refl)
        | inr (w, d) ↦ elim (Option-cases (header HeaderKey.req_type m.headers)) [
          | inl t ↦ rw (e, f, g, d, t, on_request) (refl, rw g refl)
          | inr (q, t) ↦ rw (e, f, g, d, t, on_request) (special-IsSilent n q w)
        ]
      ]
    ]
  ]
]

lifecycle-IsSilent : (app : Application) (m : Message) → IsSilent (handle_lifecycle app m).1
unfolding handle_lifecycle
lifecycle-IsSilent app m = elim (Bool-cases (is_type MessageType.component_enquiry m.msg_type)) [
  | inl e ↦ elim (Option-cases (header HeaderKey.dest_topic m.headers)) [
    | inl d ↦ rw (e, d, handle_lifecycle) (refl, refl)
    | inr (d, x) ↦
        rw (e, x, handle_lifecycle)
          (produce-IsSilent d (message_type_text MessageType.component_enquiry_response) app.app_id
            app.description [])
  ]
  | inr e ↦ rw (e, handle_lifecycle) (ground arith)
]

response-IsSilent : (app : Application) (m : Message) → IsSilent (handle_response app m).1
unfolding handle_response
response-IsSilent app m = ground (arith, on_response-IsSilent app m)

lifecycle_taken :
    (app : Application) (m : Message)
    → (handle_lifecycle app m).0 ≡ (
        is_type MessageType.component_enquiry m.msg_type
        || is_type MessageType.request_stop m.msg_type)
unfolding handle_lifecycle
lifecycle_taken app m = ground arith

response_taken :
    (app : Application) (m : Message)
    → (handle_response app m).0
      ≡ (is_type MessageType.response m.msg_type || is_type MessageType.last_response m.msg_type)
unfolding handle_response
response_taken app m = ground arith

request_lem :
    (app : Application) (m : Message) (book : PendingRequestBook)
    → m.msg_type ≡ "request"
    → ((on_message app m book).1 ≡ (on_request m book).1) × (is_internal m.msg_type ≡ true)
unfolding on_message handle_lifecycle handle_response handle_request string_dec
request_lem app m book e = rw (e, handle_lifecycle, handle_response, handle_request) (refl, refl)

other_lem :
    (app : Application) (m : Message) (book : PendingRequestBook)
    → (m.msg_type == "request") ≡ false
    → (delivered (on_message app m book).1 ≡ (if is_internal m.msg_type then [] else m ∷ []))
      × (handled (on_message app m book).1 ≡ [])
unfolding on_message handle_request
other_lem app m book e = ground (
  arith,
  e,
  lifecycle_taken app m,
  response_taken app m,
  lifecycle-IsSilent app m,
  response-IsSilent app m,
)

-- What the message asks of the application's handler.
abbrev pub asked_of : Message → PendingRequestBook → List ℕ
asked_of m book = asked (asks m) book

not_asked :
    (m : Message) (book : PendingRequestBook)
    → (m.msg_type == "request") ≡ false
    → asked_of m book ≡ []
not_asked m book r = rw (r, asked_of, asks) refl

-- A message reaches the application's own callback, once, exactly if it is of none of the types that
-- the middleware keeps to itself. The application's handler gets the number of a message, once,
-- exactly if it is a request with a number of 64 bits, a destination and no type of its own, and the
-- number is not yet pending.
pub on_message_lem :
    (app : Application) (m : Message) (book : PendingRequestBook)
    → (delivered (on_message app m book).1 ≡ (if is_internal m.msg_type then [] else m ∷ []))
      × (handled (on_message app m book).1 ≡ asked_of m book)
on_message_lem app m book = elim (Bool-cases (m.msg_type == "request")) [
  | inl r ↦
      let (a, b) = request_lem app m book (eq_of_== m.msg_type "request" r) in
      rw (a, b, r, asked_of, asks) (on_request_lem m book)
  | inr r ↦ let (a, b) = other_lem app m book r in (a, b ∙ sym (not_asked m book r))
]
