-- ===== src/Programs/Exchange.antt =====
-- PlatformComm.cpp, Interface.cpp and SDPMock.cpp together: the requests of a gateway on their way
-- to the mock, and the responses on their way back.
use multi_market_prices.Prelude.{
  ℕ, Bool, false, not, Option, none, some, List, [], ◌∷◌, ◌++◌, String, string_eq, nat_eq, is_some,
}
use multi_market_prices.Partition.{Engine}
use multi_market_prices.Platform.{Gateway, text, object, PlatformEffect, Platform, on_assigned}
use multi_market_prices.Platform.Download.{response_cb}
use multi_market_prices.Middleware.{MiddlewareEffect, respond_to}
use multi_market_prices.Middleware.Requests.{Application, PendingRequestBook, request}
use multi_market_prices.Middleware.RoundTrip.{receive_all}
use multi_market_prices.Programs.{Json}
use multi_market_prices.Programs.Mock.{handle_requests}

module _ {F Obj : Type 0} (engine : Engine F) (json : Json Obj)
    (key_gen : Bool → Obj → Option String) (disintegrate : String → String × String × String) where
  -- The gateway reads JSON with the same library.
  abbrev pub gateway : Gateway Obj
  gateway = record {
    parse_object = json.parse_object;
    text_at = json.text_at;
    key_gen = key_gen;
    disintegrate = disintegrate;
  }

  -- The gateway as an application of the middleware, which `PlatformComm::init` gives `responseCb`
  -- and no callback for pongs.
  abbrev pub gateway_application : Platform F → Application
  gateway_application s = record {
    app_id = s.app_id;
    description = "";
    has_pong_callback = false;
    response_throws =
        λ req_id msg is_last. not (is_some (response_cb engine gateway msg is_last s));
    pong_throws = λ req_id. false;
  }

  -- The calls of `requestFunc` among the gateway's effects, with their payloads as texts.
  unfoldable pub send_requests : Application → List PlatformEffect → List MiddlewareEffect
  send_requests app [] = []
  send_requests app (PlatformEffect.request req_id (object fields) topic ∷ es) =
      (request app req_id none (json.serialize fields) topic).1 ++ send_requests app es
  send_requests app (PlatformEffect.request req_id (text t) topic ∷ es) =
      (request app req_id none t topic).1 ++ send_requests app es
  send_requests app (_ ∷ es) = send_requests app es

  -- The responses among what the middleware hands over go to `responseCb` one after the other.
  unfoldable pub take_responses :
      List MiddlewareEffect → Platform F → Option (Platform F × List PlatformEffect)
  unfolding response_cb
  take_responses [] s = some (s, [])
  take_responses (respond_to req_id msg is_last ∷ es) s =
      elim (response_cb engine gateway msg is_last s) [
        | none ↦ none
        | some (s', out) ↦ elim (take_responses es s') [
          | none ↦ none
          | some (s'', outs) ↦ some (s'', out ++ outs)
        ]
      ]
  take_responses (_ ∷ es) s = take_responses es s

  -- The requests of a gateway, to the mock with the topic of its group and back.
  unfoldable pub exchange :
      Option String
      → Application
      → List PlatformEffect
      → Platform F
      → PendingRequestBook
      → PendingRequestBook
      → Option ((Platform F × List PlatformEffect) × PendingRequestBook × PendingRequestBook)
  unfolding receive_all send_requests handle_requests take_responses
  exchange mock_group mock es s book own_book =
      let asked = receive_all mock_group mock (send_requests (gateway_application s) es) book in
      elim (handle_requests json asked.1 asked.0) [
        | none ↦ none
        | some (book', out) ↦
            let received = receive_all none (gateway_application s) out own_book in
            elim (take_responses received.1 s) [
              | none ↦ none
              | some after ↦ some (after, book', received.0)
            ]
      ]

  -- A partition is assigned, and what it asks for comes.
  unfoldable pub download :
      Option String
      → Application
      → ℕ
      → ℕ
      → Platform F
      → PendingRequestBook
      → PendingRequestBook
      → Option ((Platform F × List PlatformEffect) × PendingRequestBook × PendingRequestBook)
  unfolding on_assigned exchange
  download mock_group mock req_id partition s book own_book =
      let assigned = on_assigned engine req_id partition s in
      exchange mock_group mock assigned.1 assigned.0 book own_book
