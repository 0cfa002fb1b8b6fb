-- ===== src/Programs/Download.antt =====
-- MDGateways/PlatformComm/PlatformComm.cpp, MiddleWare/Interface.cpp and SDPMock/SDPMock.cpp
-- together: how a partition that is assigned to a gateway gets its subscriptions from the mock.
use mathlib.Core.List.{append-nil}
use multi_market_prices.Prelude.{
  ℕ, ◌<◌, ◌^◌, ◌≡◌, refl, Bool, true, false, Option, none, some, List, [], ◌∷◌, String, string_eq,
  string_dec, nat_eq, ◌==◌, lookup, assign, arith, lookup-assign, ap, sym, ◌∙◌, ==_refl,
  lookup-remove, remove, contains, eq_of_==,
}
use multi_market_prices.Partition.{Engine, download_end}
use multi_market_prices.Platform.{object, PlatformEffect, Platform, on_assigned, group_of}
use multi_market_prices.Platform.Download.{
  IsNamed, handle, event_of, response_cb, response_cb-on_assigned,
}
use multi_market_prices.Middleware.Requests.{Application, PendingRequestBook, request, respond}
use multi_market_prices.Middleware.RoundTrip.{
  topics, request_arrives, response_arrives, respond_found,
}
use multi_market_prices.Programs.{Json}
use multi_market_prices.Programs.Mock.{handle_request, handle_requests}
use multi_market_prices.Programs.Exchange.{
  gateway, gateway_application, send_requests, take_responses, exchange, download,
}

module _ {F Obj : Type 0} (engine : Engine F) (json : Json Obj)
    (key_gen : Bool → Obj → Option String) (disintegrate : String → String × String × String) where
  -- What `serialize` writes, `parse` reads, with the text of this tag.
  abbrev pub IsKept : String → Type 0
  IsKept tag =
      (fields : List (String × String)) (value : String)
      → lookup tag fields ≡ some value
      → (obj : Obj) × (json.parse_object (json.serialize fields) ≡ some obj)
        × (json.text_at tag obj ≡ some value)

  abbrev fields_of : String → String → List (String × String)
  fields_of group app_id = ("group", group) ∷ ("destination_topic", app_id) ∷ []

  abbrev answer_of : String → String
  answer_of group = json.serialize (("group", group) ∷ ("message_type", "response") ∷ [])

  answered :
      (group app_id : String) (req_id : ℕ) (book : PendingRequestBook)
      → IsKept "group"
      → handle_request json req_id (json.serialize (fields_of group app_id)) book
        ≡ some (respond req_id (answer_of group) true book)
  unfolding handle_request lookup string_dec
  answered group app_id req_id book kept =
      let (obj, parses, has) = kept (fields_of group app_id) group refl in
      rw (parses, handle_request) (rw (has, handle_request) refl)

  module _ (kept : IsKept "group") (mock : Application) (req_id : ℕ) (group : String)
      (s : Platform F) (book own_book : PendingRequestBook) where
    exchanged :
        (mock_group : Option String) (topic : String) (after : Platform F × List PlatformEffect)
        → req_id < 2 ^ 64
        → (s.app_id == "") ≡ false
        → (topic == "") ≡ false
        → contains topic (topics mock mock_group) ≡ true
        → lookup req_id book ≡ none
        → response_cb engine (gateway engine json key_gen disintegrate) (answer_of group) true s
          ≡ some after
        → exchange engine json key_gen disintegrate mock_group mock
            (PlatformEffect.request req_id (object (fields_of group s.app_id)) topic ∷ [])
            s
            book
            own_book
          ≡ some (
            after,
            (respond req_id (answer_of group) true (assign req_id s.app_id book)).1,
            own_book,
          )
    unfolding exchange send_requests handle_requests take_responses
    exchanged mock_group topic after b a t g n c =
        let app = gateway_application engine json key_gen disintegrate s in
        let asked = assign req_id s.app_id book in
        let found : lookup req_id asked ≡ some s.app_id =
          ground (arith, lookup-assign req_id req_id s.app_id book, ==_refl req_id) in
        let quiet : app.response_throws req_id (answer_of group) true ≡ false = rw c refl in
        rw
          (
            append-nil
                (request app req_id none (json.serialize (fields_of group s.app_id)) topic).1,
            request_arrives app mock req_id (json.serialize (fields_of group s.app_id)) topic book
                mock_group b a t g n,
            answered group s.app_id req_id asked kept,
            handle_requests,
            exchange,
          )
          (rw
            (
              append-nil (respond req_id (answer_of group) true asked).2,
              response_arrives app req_id asked (answer_of group) true own_book b a quiet found,
              c,
              append-nil after.1,
              take_responses,
            )
            (rw
              (
                append-nil (respond req_id (answer_of group) true asked).2,
                response_arrives app req_id asked (answer_of group) true own_book b a quiet found,
              )
              refl))

  grouped :
      (group : String)
      → lookup {K = String} {V = String} "group"
          (("group", group) ∷ ("message_type", "response") ∷ [])
        ≡ some group
  unfolding lookup string_dec
  grouped group = refl

  ends_download :
      (obj : Obj)
      → event_of engine (gateway engine json key_gen disintegrate) true obj ≡ some download_end
  unfolding event_of
  ends_download obj = refl

  -- The request is over in the book of the mock, and no other is touched.
  ended :
      (req_id id : ℕ) (app_id : String) (book : PendingRequestBook)
      → lookup req_id book ≡ none
      → lookup id (remove req_id (assign req_id app_id book)) ≡ lookup id book
  ended req_id id app_id book n = ground (
    arith,
    n,
    lookup-remove req_id id (assign req_id app_id book),
    lookup-assign req_id id app_id book,
    eq_of_== req_id id,
  )

  on_assigned-app_id :
      (req_id partition : ℕ) (s : Platform F)
      → lookup partition s.partition_fsms ≡ none
      → (on_assigned engine req_id partition s).0.app_id ≡ s.app_id
  unfolding on_assigned
  on_assigned-app_id req_id partition s f = rw (f, on_assigned) refl

  -- For a JSON library whose texts survive being written and read, an id of 64 bits that is not
  -- pending at the mock, names that are not empty, names of the group and the topic without a colon,
  -- a topic for requests of synchronisation that is a topic of the mock (its own, or its group's),
  -- and a partition whose number fits an `int` and that has no machine: when it is assigned, and
  -- each record is received once, by an application that subscribes to its topic, the request
  -- reaches the mock on that topic, its answer comes back on the gateway's own, and the end of the
  -- download is handled by the machine of just this partition, which had been started. No handler
  -- throws, the mock's book of pending requests reads as before, and the gateway's is as before.
  pub download_lem :
      (mock_group : Option String) (mock : Application) (req_id partition : ℕ) (s : Platform F)
      (book own_book : PendingRequestBook)
      → IsKept "group"
      → IsNamed s partition
      → lookup partition s.partition_fsms ≡ none
      → req_id < 2 ^ 64
      → (s.app_id == "") ≡ false
      → (s.sync_data_request_topic == "") ≡ false
      → contains s.sync_data_request_topic (topics mock mock_group) ≡ true
      → lookup req_id book ≡ none
      → let assigned = on_assigned engine req_id partition s in
        (book' : PendingRequestBook) × (download engine json key_gen disintegrate mock_group mock
            req_id partition s book own_book
          ≡ some (
            handle engine
                (gateway engine json key_gen disintegrate)
                partition
                engine.started
                download_end
                assigned.0,
            book',
            own_book,
          ))
        × ((id : ℕ) → lookup id book' ≡ lookup id book)
  unfolding download
  download_lem mock_group mock req_id partition s book own_book kept named f b a t g n =
      let assigned = on_assigned engine req_id partition s in
      let (obj, parses, has) =
        kept (("group", group_of partition s) ∷ ("message_type", "response") ∷ [])
          (group_of partition s) (grouped (group_of partition s)) in
      let (asks, ends) =
        response_cb-on_assigned engine (gateway engine json key_gen disintegrate) s partition req_id
          (answer_of (group_of partition s)) obj true download_end named f parses has
          (ends_download obj) in
      let same = on_assigned-app_id req_id partition s f in
      let topic = s.sync_data_request_topic in
      let group = group_of partition s in
      let b' = (respond req_id (answer_of group) true (assign req_id assigned.0.app_id book)).1 in
      let found : lookup req_id (assign req_id assigned.0.app_id book) ≡ some assigned.0.app_id =
        ground (arith, lookup-assign req_id req_id assigned.0.app_id book, ==_refl req_id) in
      (
        b',
        ap
              (λ es.
                exchange engine json key_gen disintegrate mock_group mock es assigned.0 book
                  own_book)
              (asks
                ∙ ap (λ x. PlatformEffect.request req_id (object (fields_of group x)) topic ∷ [])
                    (sym same))
            ∙ exchanged kept mock req_id group assigned.0 book own_book mock_group topic _ b
                (rw same a) t g n ends,
        λ id.
            rw
              (respond_found (gateway_application engine json key_gen disintegrate assigned.0)
                req_id (assign req_id assigned.0.app_id book) (answer_of group) true found).1
              (ended req_id id assigned.0.app_id book n),
      )
