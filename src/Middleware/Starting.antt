-- ===== src/Middleware/Starting.antt =====
-- MiddleWare/Interface.cpp: how a component starts and ends (`initializeMiddleWare`), and how it
-- subscribes.
pub mod Milestones
use multi_market_prices.Prelude.{
  ℕ, ◌+◌, ◌≡◌, ◌↔◌, refl, ap, Bool, true, false, not, ◌&&◌, ◌||◌, Option, none, some, List, [], ◌∷◌,
  ◌++◌, String, string_eq, string_dec, nat_eq, nat_dec, ◌==◌, if◌then◌else◌, arith, map, is_some,
}
use multi_market_prices.Constants.Messages.{MessageType, message_type_text}
use multi_market_prices.Middleware.{MiddlewareEffect, send, produce}

-- What `initializeMiddleWare` is called with: a Boolean for a function or pointer tells whether it
-- is given.
pub record InitParams : Type 0 where
  pub app_id : String
  pub app_group : String
  pub has_description_func : Bool
  pub has_heart_beat_gen_func : Bool
  pub heartbeat_interval_sec : ℕ
  pub has_timer : Bool
  pub has_kafka_worker : Bool
  pub has_msg_callback : Bool
  pub has_init_callback : Bool
  pub has_response_callback : Bool
  pub has_request_handler_func : Bool
  pub min_available_brokers : ℕ
  pub registrations_topic : String
  pub description : String
  pub has_exit_cb : Bool

-- An `Error`: none, the one for what is missing, or a code of Kafka's.
pub data StartError : Type 0 where
  no_error app_id_empty app_group_empty description_null heart_beat_gen_null : StartError
  heartbeat_interval_zero timer_null worker_null msg_callback_null init_callback_null : StartError
  response_callback_none request_handler_none min_brokers_zero topic_empty : StartError
  kafka_error : ℕ → StartError

-- The error that `validateInitParams` reports.
unfoldable pub validation_error : InitParams → StartError
unfolding string_dec nat_dec
validation_error p =
    if p.app_id == ""
    then app_id_empty
    else if p.app_group == ""
    then app_group_empty
    else if not p.has_description_func
    then description_null
    else if not p.has_heart_beat_gen_func
    then heart_beat_gen_null
    else if p.heartbeat_interval_sec == 0
    then heartbeat_interval_zero
    else if not p.has_timer
    then timer_null
    else if not p.has_kafka_worker
    then worker_null
    else if not p.has_msg_callback
    then msg_callback_null
    else if not p.has_init_callback
    then init_callback_null
    else if not p.has_response_callback
    then response_callback_none
    else if not p.has_request_handler_func
    then request_handler_none
    else if p.min_available_brokers == 0
    then min_brokers_zero
    else no_error

abbrev pub is_error : StartError → Bool
is_error no_error = false
is_error _ = true

pub data StartEffect : Type 0 where
  clear_shutdown_request : StartEffect
  -- `errCallback`
  report_error : StartError → StartEffect
  make_clients : StartEffect
  -- The thread of the group's loop, and its `kill` when the loop is destroyed.
  start_group_loop kill_group_loop : StartEffect
  install_heartbeat : ℕ → StartEffect
  subscribe_individual : String → StartEffect
  call_init_callback : StartEffect
  put : MiddlewareEffect → StartEffect
  run_individual_loop : StartEffect
  call_exit_cb close_producer : StartEffect

-- The result of `validateInitParams`, and what it reports, which it does also when there is no error.
unfoldable pub validate_init_params : InitParams → Bool × List StartEffect
unfolding validation_error
validate_init_params p =
    (not (is_error (validation_error p)), report_error (validation_error p) ∷ [])

abbrev pub put_all : List MiddlewareEffect → List StartEffect
put_all = map put

-- The function that `getSubsciptionFunc` makes: `outcome` is what the consumer's `subscribe` throws.
unfoldable pub subscribe : String → Option ℕ → StartError × List StartEffect
unfolding string_dec
subscribe topic outcome = if topic == "" then (topic_empty, []) else (
  elim outcome [ none ↦ no_error | some code ↦ kafka_error code ],
  subscribe_individual topic ∷ [],
)

-- What making the clients throws, and the code of what subscribing throws.
pub record Outcomes : Type 0 where
  pub clients : Option ℕ
  pub subscribing : Option ℕ

-- From `initCallback` to the end of `initializeMiddleWare`.
unfoldable pub live : InitParams → List StartEffect
unfolding produce
live p =
    call_init_callback
      ∷ put_all
          (produce p.registrations_topic (message_type_text MessageType.app_up) p.app_id
            p.description []).1
    ++ run_individual_loop
      ∷ put_all
          (produce p.registrations_topic (message_type_text MessageType.app_down) p.app_id
            p.description []).1
    ++ (if p.has_exit_cb then call_exit_cb ∷ [] else [])
    ++ close_producer ∷ kill_group_loop ∷ []

unfoldable pub initialize_middleware : InitParams → Outcomes → List StartEffect
unfolding validate_init_params subscribe live
initialize_middleware p o =
    let validated = validate_init_params p in
    let subscribed = subscribe p.app_id o.subscribing in
    clear_shutdown_request ∷ validated.1
    ++ (if not validated.0 then [] else elim o.clients [
      | some code ↦ make_clients ∷ report_error (kafka_error code) ∷ []
      | none ↦
          make_clients
            ∷ start_group_loop
            ∷ install_heartbeat p.heartbeat_interval_sec
            ∷ subscribed.1
          ++ (if is_error subscribed.0
              then report_error subscribed.0 ∷ kill_group_loop ∷ []
              else live p)
    ])
