-- ===== src/Middleware/Requests.antt =====
-- MiddleWare/Interface.cpp: requests, responses and what is told about a component.
use multi_market_prices.Prelude.{
  ℕ, Bool, true, false, not, ◌&&◌, Option, none, some, List, [], ◌∷◌, String, string_eq, string_dec,
  nat_eq, ◌==◌, if◌then◌else◌, Map, lookup, assign, remove, is_some, stoull, to_string,
}
use multi_market_prices.Constants.Messages.{
  MessageType, message_type_text, HeaderKey, header_key_text, ReqType, req_type_text, RespType,
  resp_type_text,
}
use multi_market_prices.Middleware.{
  Headers, Message, ApiError, ok, non_existent_req_id, pong_callback_not_registered,
  missing_resp_id, missing_req_id, missing_dest_topic, invalid_is_last, invalid_resp_id,
  invalid_req_id, duplicate_req_id, unknown_req_id, MiddlewareEffect, report, respond_to, pong,
  handle, deliver, request_shutdown, produce,
}

-- The application: its id, its description, whether it gave a callback for pongs, and whether its
-- callbacks for responses and pongs throw.
pub record Application : Type 0 where
  pub app_id : String
  pub description : String
  pub has_pong_callback : Bool
  pub response_throws : ℕ → String → Bool → Bool
  pub pong_throws : ℕ → Bool

-- `PendingRequestBook`
abbrev pub PendingRequestBook : Type 0
PendingRequestBook = Map ℕ String

abbrev pub header : HeaderKey → Headers → Option String
header k headers = lookup (header_key_text k) headers

abbrev pub is_type : MessageType → String → Bool
is_type t msg_type = msg_type == message_type_text t

-- The `try` block of `handleResponse`, where the number of the request was read.
unfoldable pub call_back :
    Application → ℕ → String → Headers → String → Bool → List MiddlewareEffect
unfolding string_dec
call_back app req_id req_id_str headers payload is_last =
    let is_pong : Bool = elim (header HeaderKey.resp_type headers) [
      | none ↦ false
      | some t ↦ t == resp_type_text RespType.pong
    ] in
    if is_pong
    then if app.has_pong_callback
      then pong req_id
        ∷ (if app.pong_throws req_id then report (invalid_resp_id req_id_str) ∷ [] else [])
      else []
    else respond_to req_id payload is_last
      ∷ (if app.response_throws req_id payload is_last
          then report (invalid_resp_id req_id_str) ∷ []
          else [])

-- `handleResponse` once the type fits.
unfoldable pub on_response : Application → Message → List MiddlewareEffect
unfolding call_back string_dec
on_response app m = elim (header HeaderKey.resp_id m.headers) [
  | none ↦ report missing_resp_id ∷ []
  | some req_id_str ↦
      let is_last_str = header HeaderKey.is_last m.headers in
      let invalid : Bool = elim is_last_str [
        | none ↦ false
        | some s ↦ not (s == "0") && not (s == "1")
      ] in
      let is_last : Bool = elim is_last_str [ none ↦ false | some s ↦ s == "1" ] in
      if invalid
      then elim is_last_str [ none ↦ [] | some s ↦ report (invalid_is_last s) ∷ [] ]
      else elim (stoull req_id_str) [
        | none ↦ report (invalid_resp_id req_id_str) ∷ []
        | some req_id ↦ call_back app req_id req_id_str m.headers m.payload is_last
      ]
]

-- `handleSpecialRequest`: a ping is answered by a pong.
unfoldable pub handle_special_request : ℕ → String → String → List MiddlewareEffect
unfolding produce string_dec
handle_special_request req_id req_type dest_topic =
    if req_type == req_type_text ReqType.ping
    then (produce dest_topic (message_type_text MessageType.response) "Null" "" (
        (header_key_text HeaderKey.resp_id, to_string req_id)
        ∷ (header_key_text HeaderKey.resp_type, resp_type_text RespType.pong)
        ∷ (header_key_text HeaderKey.is_last, "1")
        ∷ [])).1
    else []

-- `handleRequest` once the type fits.
unfoldable pub on_request :
    Message → PendingRequestBook → PendingRequestBook × List MiddlewareEffect
unfolding handle_special_request
on_request m book = elim (header HeaderKey.req_id m.headers) [
  | none ↦ (book, report missing_req_id ∷ [])
  | some req_id_str ↦ elim (stoull req_id_str) [
    | none ↦ (book, report (invalid_req_id req_id_str) ∷ [])
    | some req_id ↦
        if is_some (lookup req_id book)
        then (book, report (duplicate_req_id req_id_str) ∷ [])
        else (elim (header HeaderKey.dest_topic m.headers) [
          | none ↦ (book, report missing_dest_topic ∷ [])
          | some dest_topic ↦ elim (header HeaderKey.req_type m.headers) [
            | some req_type ↦ (book, handle_special_request req_id req_type dest_topic)
            | none ↦ (assign req_id dest_topic book, handle req_id m.payload ∷ [])
          ]
        ])
  ]
]

-- `respond`
unfoldable pub respond :
    ℕ → String → Bool → PendingRequestBook → ApiError × PendingRequestBook × List MiddlewareEffect
unfolding produce
respond req_id payload is_last book = elim (lookup req_id book) [
  | none ↦ (non_existent_req_id, book, report (unknown_req_id req_id) ∷ [])
  | some dest_topic ↦ (
    ok,
    if is_last then remove req_id book else book,
    (produce dest_topic (message_type_text MessageType.response) "Null" payload (
        (header_key_text HeaderKey.resp_id, to_string req_id)
        ∷ (header_key_text HeaderKey.is_last, if is_last then "1" else "0")
        ∷ [])).1,
  )
]

-- The result of `handleLifecycle`, and of the two handlers with it, is whether the message was theirs.
unfoldable pub handle_lifecycle : Application → Message → Bool × List MiddlewareEffect
unfolding produce string_dec
handle_lifecycle app m =
    if is_type MessageType.component_enquiry m.msg_type
    then (
      true,
      elim (header HeaderKey.dest_topic m.headers) [
        | none ↦ []
        | some dest ↦
            (produce dest (message_type_text MessageType.component_enquiry_response) app.app_id
              app.description []).1
      ],
    )
    else if is_type MessageType.request_stop m.msg_type
    then (true, request_shutdown ∷ [])
    else (false, [])

unfoldable pub handle_response : Application → Message → Bool × List MiddlewareEffect
unfolding on_response string_dec
handle_response app m =
    if not (is_type MessageType.response m.msg_type)
      && not (is_type MessageType.last_response m.msg_type)
    then (false, [])
    else (true, on_response app m)

unfoldable pub handle_request :
    Message → PendingRequestBook → Bool × PendingRequestBook × List MiddlewareEffect
unfolding on_request string_dec
handle_request m book =
    if not (is_type MessageType.request m.msg_type)
    then (false, book, [])
    else (true, (on_request m book).0, (on_request m book).1)

-- `refinedMsgCallback`
unfoldable pub on_message :
    Application → Message → PendingRequestBook → PendingRequestBook × List MiddlewareEffect
unfolding handle_lifecycle handle_response handle_request
on_message app m book =
    let lifecycle = handle_lifecycle app m in
    let response = handle_response app m in
    let request = handle_request m book in
    if lifecycle.0
    then (book, lifecycle.1)
    else if response.0
    then (book, response.1)
    else if request.0
    then (request.1, request.2)
    else (book, deliver m ∷ [])

-- `requestFunc`
unfoldable pub request :
    Application → ℕ → Option ReqType → String → String → ApiError × List MiddlewareEffect
unfolding produce string_dec
request app req_id req_type payload target_topic =
    let is_ping : Bool = elim req_type [
      | none ↦ false
      | some t ↦ req_type_text t == req_type_text ReqType.ping
    ] in
    if is_ping && not app.has_pong_callback then (pong_callback_not_registered, []) else (
      ok,
      (produce target_topic (message_type_text MessageType.request) app.app_id payload (
          (header_key_text HeaderKey.req_id, to_string req_id)
          ∷ (header_key_text HeaderKey.dest_topic, app.app_id)
          ∷ elim req_type [
            | none ↦ []
            | some t ↦ (header_key_text HeaderKey.req_type, req_type_text t) ∷ []
          ])).1,
    )
