-- ===== src/Middleware/RoundTrip.antt =====
-- MiddleWare/Interface.cpp: a request on its way to another application, and the response on its way
-- back.
use multi_market_prices.Prelude.{
  ℕ, ◌<◌, ◌^◌, ◌≡◌, refl, Bool, true, false, Option, none, some, List, [], ◌∷◌, ◌++◌, String,
  string_eq, string_dec, nat_eq, ◌==◌, if◌then◌else◌, lookup, assign, remove, contains,
  stoull-to_string, lookup-assign, lookup-remove, ==_refl, arith,
}
use multi_market_prices.Constants.Messages.{ReqType}
use multi_market_prices.Middleware.{
  ok, MiddlewareEffect, send, respond_to, pong, handle, produce, receive,
}
use multi_market_prices.Middleware.Requests.{
  Application, PendingRequestBook, on_message, request, respond, handle_lifecycle, handle_response,
  handle_request, on_response, on_request, call_back, handle_special_request,
}

-- The topics that an application subscribes to: its own, and the one of its group if it has one.
abbrev pub topics : Application → Option String → List String
topics app none = app.app_id ∷ []
topics app (some group) = app.app_id ∷ group ∷ []

-- What an application, with the topic of its group, receives of the records among some effects, at a
-- partition and offset. Kafka hands it the records on the topics that it subscribes to, and no others;
-- each is handled, and the book goes on.
unfoldable pub receive_all :
    Option String
    → Application
    → List MiddlewareEffect
    → PendingRequestBook
    → PendingRequestBook × List MiddlewareEffect
unfolding on_message receive
receive_all group app [] book = (book, [])
receive_all group app (send r ∷ es) book =
    let first =
      if contains r.topic (topics app group)
      then on_message app (receive 0 0 r) book
      else (book, []) in
    let rest = receive_all group app es first.0 in (rest.0, first.1 ++ rest.1)
receive_all group app (e ∷ es) book = receive_all group app es book

own_topic : (x : String) → contains x (x ∷ []) ≡ true
unfolding contains
own_topic x = rw (==_refl x) refl

module _ (asker answerer : Application) (req_id : ℕ) (payload target : String)
    (book : PendingRequestBook) where
  pub request_arrives :
      (group : Option String)
      → req_id < 2 ^ 64
      → (asker.app_id == "") ≡ false
      → (target == "") ≡ false
      → contains target (topics answerer group) ≡ true
      → lookup req_id book ≡ none
      → receive_all group answerer (request asker req_id none payload target).1 book
        ≡ (assign req_id asker.app_id book, handle req_id payload ∷ [])
  unfolding receive_all receive request produce on_message handle_lifecycle handle_response
      handle_request on_request string_dec lookup
  request_arrives group b a t g n =
      rw (t, a, g, stoull-to_string req_id b, n, on_request, handle_request) refl

module _ (asker : Application) (req_id : ℕ) (book : PendingRequestBook) where
  pub response_arrives :
      (answer : String) (is_last : Bool) (asker_book : PendingRequestBook)
      → req_id < 2 ^ 64
      → (asker.app_id == "") ≡ false
      → asker.response_throws req_id answer is_last ≡ false
      → lookup req_id book ≡ some asker.app_id
      → receive_all none asker (respond req_id answer is_last book).2 asker_book
        ≡ (asker_book, respond_to req_id answer is_last ∷ [])
  unfolding receive_all receive respond produce on_message handle_lifecycle handle_response
      handle_request on_response call_back string_dec lookup
  response_arrives answer true asker_book b a q n =
      rw
        (
          n,
          a,
          own_topic asker.app_id,
          stoull-to_string req_id b,
          q,
          respond,
          on_response,
          handle_response,
          call_back,
        )
        refl
  response_arrives answer false asker_book b a q n =
      rw
        (
          n,
          a,
          own_topic asker.app_id,
          stoull-to_string req_id b,
          q,
          respond,
          on_response,
          handle_response,
          call_back,
        )
        refl

  pub respond_found :
      (answer : String) (is_last : Bool)
      → lookup req_id book ≡ some asker.app_id
      → ((respond req_id answer is_last book).0 ≡ ok)
        × ((respond req_id answer is_last book).1 ≡ (if is_last then remove req_id book else book))
  unfolding respond
  respond_found answer is_last n = rw (n, respond) (refl, refl)

module _ (asker answerer : Application) (req_id : ℕ) (payload target : String)
    (book : PendingRequestBook) where
  -- A request number of 64 bits that is not pending at the application that answers, names that are
  -- not empty, a target that is a topic of that application (its own, or its group's), and each
  -- record received once, by an application that subscribes to its topic: the request that the
  -- asking application sends to the target is handled there once, with its number and payload, and
  -- is pending for the asking application. Then `respond` is accepted, ends the pending request
  -- exactly if the response is the last, and its record comes to the asking application on its own
  -- topic: the callback, which must not throw, is called once, with the number, the answer and
  -- whether it was the last, and nothing is reported.
  pub request_round_trip :
      (group : Option String) (answer : String) (is_last : Bool) (asker_book : PendingRequestBook)
      → req_id < 2 ^ 64
      → (asker.app_id == "") ≡ false
      → (target == "") ≡ false
      → contains target (topics answerer group) ≡ true
      → lookup req_id book ≡ none
      → asker.response_throws req_id answer is_last ≡ false
      → let asked = receive_all group answerer (request asker req_id none payload target).1 book in
        let answered = respond req_id answer is_last asked.0 in
        (asked.1 ≡ handle req_id payload ∷ [])
        × (answered.0 ≡ ok)
        × (lookup req_id answered.1 ≡ (if is_last then none else some asker.app_id))
        × (receive_all none asker answered.2 asker_book
            ≡ (asker_book, respond_to req_id answer is_last ∷ []))
  request_round_trip group answer is_last asker_book b a t g n q =
      let found : lookup req_id (assign req_id asker.app_id book) ≡ some asker.app_id =
        ground (arith, lookup-assign req_id req_id asker.app_id book, ==_refl req_id) in
      let (accepted, kept) =
        respond_found asker req_id (assign req_id asker.app_id book) answer is_last found in
      rw (request_arrives asker answerer req_id payload target book group b a t g n) (
        refl,
        accepted,
        rw kept (
            ground (
              arith,
              found,
              ==_refl req_id,
              lookup-remove req_id req_id (assign req_id asker.app_id book),
            )),
        response_arrives asker req_id (assign req_id asker.app_id book) answer is_last asker_book b
            a q found,
      )

  -- A ping of an application that takes pongs, to the topic of another one, with a number of 64 bits
  -- that is not pending there, names that are not empty, and each record received once, by an
  -- application that subscribes to its topic: the other application answers the ping itself and keeps
  -- nothing of it, and the pong callback, which must not throw, is called once with the number.
  pub ping_round_trip :
      (asker_book : PendingRequestBook)
      → req_id < 2 ^ 64
      → (asker.app_id == "") ≡ false
      → (target == "") ≡ false
      → contains target (topics answerer none) ≡ true
      → lookup req_id book ≡ none
      → asker.has_pong_callback ≡ true
      → asker.pong_throws req_id ≡ false
      → let pinged =
          receive_all none answerer
            (request asker req_id (some ReqType.ping) payload target).1
            book in
        (pinged.0 ≡ book)
        × (receive_all none asker pinged.1 asker_book ≡ (asker_book, pong req_id ∷ []))
  unfolding receive_all receive request produce on_message handle_lifecycle handle_response
      handle_request on_request on_response call_back handle_special_request string_dec lookup
  ping_round_trip asker_book b a t g n h q =
      rw
        (
          t,
          a,
          h,
          g,
          stoull-to_string req_id b,
          n,
          on_request,
          handle_request,
          handle_special_request,
          produce,
        )
        (
          refl,
          rw
              (
                a,
                own_topic asker.app_id,
                stoull-to_string req_id b,
                q,
                produce,
                on_response,
                handle_response,
                call_back,
              )
              refl,
        )
